-- ===== src/Auth/Security/Lockout.antt =====
-- A run of failed logins, and the lock that it amounts to (app/core/auth/security.py).
use blacklist.Prelude.{
  ℕ, suc, ◌+◌, ◌<◌, ◌≡◌, refl, Bool, true, false, Option, none, String, List, [], ◌∷◌, arith, leb,
  length, ◌&&◌, ◌||◌, Bool-cases, inl, inr, ap, ◌∙◌,
}
use blacklist.Auth.Redis.{key_eq_refl, Entry, live, Client}
use blacklist.Auth.Security.{
  login_lock_seconds, login_failure_limit, answer, over_limit, login_key, account_login_key,
  is_login_locked, record_login_failure, clear_login_failures,
}
use blacklist.Auth.Security.Counters.{
  counter, IsCounter, absent, counting, IsCounted, record_login_failure-IsCounted,
  record_login_failure-first, record_login_failure-next, login_key-IsCounter, key_eq-account-login,
}

-- Failed logins as the address and the time of each, in order.
abbrev pub AllBefore : ℕ → List (String × ℕ) → Type 0
AllBefore deadline [] = Unit {0}
AllBefore deadline ((ip, t) ∷ fails) = (t < deadline) × AllBefore deadline fails

over_limit-IsCounter :
    (t : ℕ) (e : Option Entry) → IsCounter e → (b : Bool) × (over_limit (live t e) ≡ answer b)
over_limit-IsCounter t _ absent = (false, refl)
over_limit-IsCounter t _ (counting n deadline) = elim (Bool-cases (leb deadline t)) [
  | inl over ↦ (false, rw over refl)
  | inr early ↦ (leb login_failure_limit (suc n), rw early refl)
]

module _ (client : Client) (digest casefold : String → String) (u : String) where
  open client use {Db, lookup, lookup-delete}

  unfoldable pub record_all : List (String × ℕ) → Db → Db
  record_all [] d = d
  record_all ((ip, t) ∷ fails) d =
      record_all fails (record_login_failure client digest casefold u ip t d).1

  -- Whether every call of the run comes to its end without an error.
  unfoldable pub all_recorded : List (String × ℕ) → Db → Bool
  all_recorded [] d = true
  all_recorded ((ip, t) ∷ fails) d =
      (record_login_failure client digest casefold u ip t d).0
      && all_recorded fails (record_login_failure client digest casefold u ip t d).1

  all_recorded-IsCounted :
      (fails : List (String × ℕ)) (d : Db) → IsCounted client d → all_recorded fails d ≡ true
  unfolding all_recorded
  all_recorded-IsCounted [] d c = refl
  all_recorded-IsCounted ((ip, t) ∷ fails) d c =
      let (done, c₁) = record_login_failure-IsCounted client digest casefold u ip t d c in
      rw done (all_recorded-IsCounted fails _ c₁)

  record_all-counts :
      (fails : List (String × ℕ)) (n deadline : ℕ) (d : Db)
      → IsCounted client d
      → lookup d (account_login_key client digest casefold u) ≡ counter (suc n) deadline
      → AllBefore deadline fails
      → IsCounted client (record_all fails d)
        × (lookup (record_all fails d) (account_login_key client digest casefold u)
            ≡ counter (suc n + length fails) deadline)
  unfolding record_all
  record_all-counts [] n deadline d c e b = (c, rw e (ap (λ m. counter m deadline) (omega arith)))
  record_all-counts ((ip, t) ∷ fails) n deadline d c e b =
      let d₁ = (record_login_failure client digest casefold u ip t d).1 in
      let c₁ = (record_login_failure-IsCounted client digest casefold u ip t d c).1 in
      let e₁ = record_login_failure-next client digest casefold u ip t n deadline d c e b.0 in
      let (k, r) = record_all-counts fails (suc n) deadline d₁ c₁ e₁ b.1 in
      (k, r ∙ ap (λ m. counter m deadline) (omega arith))

  -- A first failure at `t`, when the account has no live counter, and more before `t + 900`, in a
  -- store of well-formed counters. Up to that moment the account is locked for every address if
  -- the failures are five or more, wherever they came from; if they are fewer, the address's own
  -- counter alone decides. No call raises: neither the recording of a failure nor the check.
  pub is_login_locked-record_all :
      (first : String) (t : ℕ) (fails : List (String × ℕ)) (ip : String) (now : ℕ) (d : Db)
      → IsCounted client d
      → live t (lookup d (account_login_key client digest casefold u)) ≡ none
      → AllBefore (t + login_lock_seconds) fails
      → now < t + login_lock_seconds
      → let after = record_all ((first, t) ∷ fails) d in
        (all_recorded ((first, t) ∷ fails) d ≡ true)
        × (own : Bool) × (over_limit
              (live now (lookup after (login_key client digest casefold u ip)))
            ≡ answer own)
        × (is_login_locked client digest casefold u ip now after
            ≡ answer (leb login_failure_limit (1 + length fails) || own))
  unfolding record_all is_login_locked
  is_login_locked-record_all first t fails ip now d c fresh b late =
      let d₁ = (record_login_failure client digest casefold u first t d).1 in
      let c₁ = (record_login_failure-IsCounted client digest casefold u first t d c).1 in
      let e₁ = record_login_failure-first client digest casefold u first t d c fresh in
      let (c₂, e₂) = record_all-counts fails 0 (t + login_lock_seconds) d₁ c₁ e₁ b in
      let own = over_limit-IsCounter now _ (login_key-IsCounter client digest casefold u ip _ c₂) in
      (all_recorded-IsCounted ((first, t) ∷ fails) d c, own.0, own.1, ground (arith, own.1, e₂))

  -- A login that succeeds clears both counters: the account is open to that address at once.
  pub is_login_locked-clear :
      (ip : String) (now : ℕ) (d : Db)
      → is_login_locked client digest casefold u ip now
          (clear_login_failures client digest casefold u ip d)
        ≡ answer false
  unfolding is_login_locked clear_login_failures
  is_login_locked-clear ip now d =
      let k = login_key client digest casefold u ip in
      let a = account_login_key client digest casefold u in
      ground (
        arith,
        lookup-delete k k d,
        lookup-delete a k (client.delete k d),
        lookup-delete a a (client.delete k d),
        key_eq_refl k,
        key_eq_refl a,
        key_eq-account-login client digest casefold u ip u,
      )
