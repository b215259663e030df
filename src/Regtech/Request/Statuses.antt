-- ===== src/Regtech/Request/Statuses.antt =====
-- The statuses of a response, by the kind of failure that they are.
use blacklist.Prelude.{
  ℕ, ◌<◌, ◌≡◌, ◌⊎◌, refl, inl, inr, true, some, arith, zero, suc, ◌↔◌, ◌||◌, ◌==◌, Bool-cases,
}
use blacklist.Regtech.{session_expired, block_suspect, http_error}
use blacklist.Regtech.Request.{classify_status, is_login_redirect, or_none}

-- The statuses that lead to the login.
abbrev pub IsLoginStatus : ℕ → Type 0
IsLoginStatus status =
    (status ≡ 301)
    ⊎ ((status ≡ 302) ⊎ ((status ≡ 303) ⊎ ((status ≡ 307) ⊎ ((status ≡ 308) ⊎ (status ≡ 401)))))

abbrev pub IsBlockStatus : ℕ → Type 0
IsBlockStatus status = (status ≡ 403) ⊎ (status ≡ 429)

or_none-some : (status : ℕ) → 0 < status → or_none status ≡ some status
or_none-some zero h = absurd (omega arith)
or_none-some (suc n) h = refl

login_iff : (status : ℕ) → (is_login_redirect status ≡ true) ↔ IsLoginStatus status
login_iff status = ground arith

block_iff : (status : ℕ) → ((status == 403 || status == 429) ≡ true) ↔ IsBlockStatus status
block_iff status = ground arith

pub classify_status-cases :
    (status : ℕ)
    → (IsLoginStatus status
        × (classify_status status ≡ session_expired)
        × (or_none status ≡ some status))
      ⊎ ((IsBlockStatus status
            × (classify_status status ≡ block_suspect)
            × (or_none status ≡ some status))
          ⊎ ((¬ IsLoginStatus status)
              × (¬ IsBlockStatus status)
              × (classify_status status ≡ http_error)))
unfolding classify_status
classify_status-cases status = elim (Bool-cases (is_login_redirect status)) [
  | inl e ↦
      let login = (login_iff status).0 e in
      inl (login, rw e refl, or_none-some status (omega (arith, login)))
  | inr e ↦ elim (Bool-cases (status == 403 || status == 429)) [
    | inl e' ↦
        let block = (block_iff status).0 e' in
        inr (inl (block, rw (e, e') refl, or_none-some status (omega (arith, block))))
    | inr e' ↦ inr (
        inr (
          (λ h. ground (arith, (login_iff status).1 h)),
          (λ h. ground (arith, (block_iff status).1 h)),
          rw (e, e') refl,
        ))
  ]
]
