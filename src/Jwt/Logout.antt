-- ===== src/Jwt/Logout.antt =====
-- `Logout` of handler/logout.go, and the blacklist that it fills. Redis is a parameter: the
-- commands SET, EXPIREAT and EXISTS on a store, with the time at which each key of it expires.
use text.Mathlib.TextLemmas.{append_cancel_left}
use wifigo.Base.{
  arith, subst, ℕ, String, Bool, true, false, ◌≡◌, ◌≢◌, refl, sym, ap, ◌∙◌, ◌⊎◌, inl, inr, ◌<◌, not,
  Option, none, some, if◌then◌else◌,
}
use wifigo.Base.Texts.{◌==◌, concat, test_ne}
use wifigo.Base.Outcome.{Outcome, ok, err}
use wifigo.Jwt.Filters.{Blacklist, is_token_allowed}

-- The time to live of a key.
pub data Expiry : Type 0 where
  never : Expiry
  at : ℕ → Expiry

-- A SET with the decimal text of a number, an EXPIREAT and an EXISTS at a time; a command returns
-- its error and the store after it.
pub record Redis (Store : Type 0) : Type 0 where
  pub set : String → ℕ → Store → Option String × Store
  pub expire_at : String → ℕ → Store → Option String × Store
  pub exists_at : ℕ → String → Store → Outcome ℕ
  pub expiry : String → Store → Option Expiry

unfoldable pub Lives : ℕ → Option Expiry → Type 0
Lives now none = ⊥
Lives now (some never) = Unit
Lives now (some (at n)) = now < n

-- What the documentation of the three commands says; of a command that fails it says nothing.
pub record IsRedis {Store : Type 0} (redis : Redis Store) : Type 0 where
  pub set_sets :
      (key : String) (n : ℕ) (s t : Store)
      → redis.set key n s ≡ (none, t)
      → redis.expiry key t ≡ some never
  pub set_keeps :
      (key other : String) (n : ℕ) (s t : Store)
      → redis.set key n s ≡ (none, t)
      → (key == other) ≡ false
      → redis.expiry other t ≡ redis.expiry other s
  pub expires :
      (key : String) (n : ℕ) (s t : Store) {e : Expiry}
      → redis.expire_at key n s ≡ (none, t)
      → redis.expiry key s ≡ some e
      → redis.expiry key t ≡ some (at n)
  pub expires_keeps :
      (key other : String) (n : ℕ) (s t : Store)
      → redis.expire_at key n s ≡ (none, t)
      → (key == other) ≡ false
      → redis.expiry other t ≡ redis.expiry other s
  pub exists_live :
      (now : ℕ) (key : String) (s : Store)
      → Lives now (redis.expiry key s)
      → (redis.exists_at now key s ≡ ok 1)
        ⊎ ((why : String) × (redis.exists_at now key s ≡ err why))

module _ {Store : Type 0} (redis : Redis Store) where
  unfoldable pub expire_after : String → ℕ → Option String × Store → Bool × Store
  expire_after key exp (some why, s) = (false, s)
  expire_after key exp (none, s) =
      let (e, t) = redis.expire_at key exp s in (elim e [ none ↦ true | some _ ↦ false ], t)

  -- SET and EXPIREAT for one token, when it has an identifier: whether both succeed.
  unfoldable pub blacklist_token : String → ℕ → Store → Bool × Store
  blacklist_token jti exp s =
      if jti == ""
      then (true, s)
      else expire_after (concat "gorest-blacklist-jti:" jti) exp
          (redis.set (concat "gorest-blacklist-jti:" jti) exp s)

  unfoldable pub answer_logout : Bool × Store → (ℕ × String) × Store
  answer_logout (true, s) = ((200, "logout successful"), s)
  answer_logout (false, s) = ((500, "internal server error"), s)

  unfoldable pub blacklist_refresh : String → ℕ → Bool × Store → (ℕ × String) × Store
  blacklist_refresh jti exp (true, s) = answer_logout (blacklist_token jti exp s)
  blacklist_refresh jti exp (false, s) = answer_logout (false, s)

  -- `Logout`, with the status, the message and the store after it.
  unfoldable pub logout : Bool → String → String → ℕ → ℕ → Store → (ℕ × String) × Store
  logout is_redis jti_access jti_refresh exp_access exp_refresh s =
      if not is_redis
      then ((200, "logout successful"), s)
      else blacklist_refresh jti_refresh exp_refresh (blacklist_token jti_access exp_access s)

-- The key of an identifier on the blacklist.
abbrev pub blacklist_key : String → String
blacklist_key jti = concat "gorest-blacklist-jti:" jti

-- The blacklist in a store at a time, with JWT in use, and Redis and the invalidation of tokens
-- in use or not.
abbrev pub blacklist_at : {Store : Type 0} → Redis Store → Bool → Bool → ℕ → Store → Blacklist
blacklist_at redis is_redis invalidate now s = record {
  is_jwt = true;
  is_redis = is_redis;
  invalidate_jwt = invalidate;
  exists_key = λ key. redis.exists_at now key s;
}

module _ {Store : Type 0} (redis : Redis Store) (laws : IsRedis redis) where
  expire_after-true :
      (key : String) (exp : ℕ) (s t : Store) (r : Option String × Store)
      → redis.set key exp s ≡ r
      → expire_after redis key exp r ≡ (true, t)
      → (redis.expiry key t ≡ some (at exp))
        × ((other : String) → (key == other) ≡ false → redis.expiry other t ≡ redis.expiry other s)
  unfolding expire_after
  expire_after-true key exp s t (some why, u) e h = absurd (cc (ap (λ (q : Bool × Store). q.0) h))
  expire_after-true key exp s t (none, u) e h = go (redis.expire_at key exp u) refl h
    where
      go :
          (q : Option String × Store)
          → redis.expire_at key exp u ≡ q
          → ◌≡◌ {A = Bool × Store}
              (elim q.0 as (λ _. Bool) [ none ↦ true | some _ ↦ false ], q.1)
              (true, t)
          → (redis.expiry key t ≡ some (at exp))
            × ((other : String)
                → (key == other) ≡ false
                → redis.expiry other t ≡ redis.expiry other s)
      go (some why, v) f g = absurd (cc (ap (λ (q : Bool × Store). q.0) g))
      go (none, v) f g =
          let same = ap (λ (q : Bool × Store). q.1) g in
          (
            ap (redis.expiry key) (sym same)
                ∙ laws.expires key exp u v f (laws.set_sets key exp s u e),
            λ other n.
                ap (redis.expiry other) (sym same)
                ∙ laws.expires_keeps key other exp u v f n
                ∙ laws.set_keeps key other exp s u e n,
          )

  blacklist_token-true :
      (jti : String) (exp : ℕ) (s t : Store)
      → jti ≢ ""
      → blacklist_token redis jti exp s ≡ (true, t)
      → (redis.expiry (blacklist_key jti) t ≡ some (at exp))
        × ((other : String)
            → (blacklist_key jti == other) ≡ false
            → redis.expiry other t ≡ redis.expiry other s)
  unfolding blacklist_token
  blacklist_token-true jti exp s t n h =
      expire_after-true (blacklist_key jti) exp s t (redis.set (blacklist_key jti) exp s) refl
        (rw (blacklist_token, test_ne jti "" n) at h)

  live-Refused :
      (now exp : ℕ) (jti : String) (s : Store)
      → redis.expiry (blacklist_key jti) s ≡ some (at exp)
      → now < exp
      → is_token_allowed (blacklist_at redis true true now s) jti ≡ false
  unfolding is_token_allowed Lives
  live-Refused now exp jti s e h =
      elim (laws.exists_live now (blacklist_key jti) s (subst (Lives now) (sym e) h)) [
        | inl one ↦ rw (is_token_allowed, one) refl
        | inr (why, broken) ↦ rw (is_token_allowed, broken) refl
      ]

  pub logout-Blacklists :
      (now : ℕ) (jti_access jti_refresh message : String) (exp_access exp_refresh : ℕ) (s t : Store)
      → jti_access ≢ ""
      → jti_refresh ≢ ""
      → jti_refresh ≢ jti_access
      → logout redis true jti_access jti_refresh exp_access exp_refresh s ≡ ((200, message), t)
      → now < exp_access
      → now < exp_refresh
      → (is_token_allowed (blacklist_at redis true true now t) jti_access ≡ false)
        × (is_token_allowed (blacklist_at redis true true now t) jti_refresh ≡ false)
  unfolding logout blacklist_refresh answer_logout
  logout-Blacklists now jti_access jti_refresh message exp_access exp_refresh s t n m differ h
        before before_r =
      first (blacklist_token redis jti_access exp_access s) refl h
    where
      Refused : Type 0
      Refused =
          (is_token_allowed (blacklist_at redis true true now t) jti_access ≡ false)
          × (is_token_allowed (blacklist_at redis true true now t) jti_refresh ≡ false)

      second_token :
          (u : Store)
          → blacklist_token redis jti_access exp_access s ≡ (true, u)
          → (r : Bool × Store) → blacklist_token redis jti_refresh exp_refresh u ≡ r
          → answer_logout redis r ≡ ((200, message), t)
          → Refused
      second_token u a (false, v) b g =
          absurd (omega (arith, ap (λ (q : (ℕ × String) × Store). q.0.0) g))
      second_token u a (true, v) b g =
          let same = ap (λ (q : (ℕ × String) × Store). q.1) g in
          let (at_access, _) = blacklist_token-true jti_access exp_access s u n a in
          let (at_refresh, others) = blacklist_token-true jti_refresh exp_refresh u v m b in
          (
            live-Refused now exp_access jti_access t
                (ap (redis.expiry (blacklist_key jti_access)) (sym same)
                  ∙ others (blacklist_key jti_access) (
                      test_ne _ _ (λ e.
                        differ
                          (append_cancel_left "gorest-blacklist-jti:" jti_refresh jti_access e)))
                  ∙ at_access)
                before,
            live-Refused now exp_refresh jti_refresh t
                (ap (redis.expiry (blacklist_key jti_refresh)) (sym same) ∙ at_refresh) before_r,
          )

      first :
          (r : Bool × Store)
          → blacklist_token redis jti_access exp_access s ≡ r
          → blacklist_refresh redis jti_refresh exp_refresh r ≡ ((200, message), t)
          → Refused
      first (false, u) a g = absurd (omega (arith, ap (λ (q : (ℕ × String) × Store). q.0.0) g))
      first (true, u) a g =
          second_token u a (blacklist_token redis jti_refresh exp_refresh u) refl g
