-- ===== src/IpManagement/Coherence.antt =====
-- The administrator's writes against the decision service: its cached decisions stay true.
use blacklist.Prelude.{
  ℕ, ◌≡◌, refl, sym, ◌∙◌, ap, subst, inl, inr, Bool, true, false, Bool-cases, Option, none, some,
  String, List, [], ◌∷◌, ltb, str_eq, if◌then◌else◌, arith,
}
use blacklist.Prelude.Dict.{lookup}
use blacklist.Decision.{
  Service, invalidate_ip_caches, drop_keys, is_listed, respond, get_blacklist_entry,
}
use blacklist.Decision.Cache.{Cached, remove, lookup-remove}
use blacklist.Decision.Coherence.{Agrees, IsCoherent, answer}
use blacklist.IpManagement.Repository.{Lists, decided_on}
use blacklist.IpManagement.Routes.{Answer, invalidation_failed}
use blacklist.IpManagement.Writes

-- What Redis holds is what the tables say, where there is a Redis.
unfoldable pub IsCurrent : ℕ → Lists → Service → Type 0
IsCurrent horizon t s = s.has_redis ≡ true → IsCoherent (decided_on t) horizon s

abbrev pub invalidated : Answer → Bool
invalidated (invalidation_failed ip) = false
invalidated _ = true

Agrees-transfer :
    {A : Type 0} (horizon : ℕ) (P Q : A → Type 0) (c : Option (Cached A))
    → ((a : A) → P a → Q a)
    → Agrees horizon P c
    → Agrees horizon Q c
Agrees-transfer horizon P Q none keep h = tt
Agrees-transfer horizon P Q (some c) keep h = λ late. keep c.value (h late)

pub Agrees-choose :
    {A : Type 0} (horizon : ℕ) (P Q : A → Type 0) (b : Bool) (c : Option (Cached A))
    → (b ≡ false → (a : A) → P a → Q a)
    → Agrees horizon P c
    → Agrees horizon Q (if b then none else c)
Agrees-choose horizon P Q true c keep h = tt
Agrees-choose horizon P Q false c keep h = Agrees-transfer horizon P Q c (keep refl) h

-- An entry stays true where its key stays, and is gone where it is removed.
Agrees-remove :
    {A : Type 0} (horizon : ℕ) (P Q : A → Type 0) (key ip : String)
    (cache : List (String × Cached A))
    → (str_eq key ip ≡ false → (a : A) → P a → Q a)
    → Agrees horizon P (lookup ip cache)
    → Agrees horizon Q (lookup ip (remove key cache))
Agrees-remove horizon P Q key ip cache keep g =
    subst (Agrees horizon Q) (sym (lookup-remove key ip cache))
      (Agrees-choose horizon P Q (str_eq key ip) (lookup ip cache) keep g)

pub is_listed-SameFor :
    (ip : String) (t t' : Lists)
    → Writes.SameFor ip t t'
    → is_listed (decided_on t) ip ≡ is_listed (decided_on t') ip
unfolding Writes.SameFor decided_on
is_listed-SameFor ip t t' e = sym (ap (λ n. ltb 0 n) e.0)

pub entry-SameFor :
    (ip : String) (t t' : Lists)
    → Writes.SameFor ip t t'
    → answer (respond (get_blacklist_entry ip (decided_on t).blacklist))
      ≡ answer (respond (get_blacklist_entry ip (decided_on t').blacklist))
unfolding Writes.SameFor decided_on
entry-SameFor ip t t' e = sym (ap (λ r. answer (respond r)) e.1)

pub IsCurrent-same :
    (horizon : ℕ) (t t' : Lists) (s : Service)
    → ((ip : String) → Writes.SameFor ip t t')
    → IsCurrent horizon t s
    → IsCurrent horizon t' s
unfolding IsCurrent
IsCurrent-same horizon t t' s unchanged current = λ redis. record {
  listed = λ ip.
      Agrees-transfer horizon _ _ (lookup ip s.whitelist_cache)
        (λ b e. e ∙ is_listed-SameFor ip t t' (unchanged ip)) ((current redis).listed ip);
  answers = λ ip.
      Agrees-transfer horizon _ _ (lookup ip s.blacklist_cache)
        (λ r e. e ∙ entry-SameFor ip t t' (unchanged ip)) ((current redis).answers ip);
}

pub IsCurrent-invalidated :
    (horizon : ℕ) (t t' : Lists) (s : Service) (key : String)
    → ((ip : String) → str_eq key ip ≡ false → Writes.SameFor ip t t')
    → IsCurrent horizon t s
    → IsCurrent horizon t' (invalidate_ip_caches (key ∷ []) s)
unfolding IsCurrent invalidate_ip_caches drop_keys
IsCurrent-invalidated horizon t t' s key unchanged current = elim (Bool-cases s.has_redis) [
  | inl redis ↦ rw redis (λ _. record {
    listed = λ ip.
        Agrees-remove horizon _ _ key ip s.whitelist_cache
          (λ away b e. e ∙ is_listed-SameFor ip t t' (unchanged ip away))
          ((current redis).listed ip);
    answers = λ ip.
        Agrees-remove horizon _ _ key ip s.blacklist_cache
          (λ away r e. e ∙ entry-SameFor ip t t' (unchanged ip away)) ((current redis).answers ip);
  })
  | inr without ↦ rw without (λ redis. absurd (ground arith))
]
