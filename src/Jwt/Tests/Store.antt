-- ===== src/Jwt/Tests/Store.antt =====
-- A small Redis: a list of keys with their times of expiry.
use wifigo.Base.{
  ℕ, String, false, ◌≡◌, refl, sym, ap, ◌∙◌, inl, Option, none, some, List, ltb, if◌then◌else◌,
  arith,
}
use wifigo.Base.Texts.{◌==◌, test_self}
use wifigo.Base.Lists.{insert, lookup, lookup-insert}
use wifigo.Base.Outcome.{ok}
use wifigo.Jwt.Logout.{Expiry, never, at, Redis, Lives, IsRedis}

abbrev pub Store : Type 0
Store = List (String × Expiry)

abbrev alive : ℕ → Option Expiry → ℕ
alive now none = 0
alive now (some never) = 1
alive now (some (at n)) = if ltb now n then 1 else 0

abbrev expire : String → ℕ → Store → Option Expiry → Option String × Store
expire key n s none = (none, s)
expire key n s (some e) = (none, insert key (at n) s)

abbrev pub redis : Redis Store
redis = record {
  set = λ key n s. (none, insert key never s);
  expire_at = λ key n s. expire key n s (lookup key s);
  exists_at = λ now key s. ok (alive now (lookup key s));
  expiry = lookup;
}

inserted_same : (key : String) (e : Expiry) (s : Store) → lookup key (insert key e s) ≡ some e
inserted_same key e s = lookup-insert key key e s ∙ rw (test_self key) refl

inserted_other :
    (key other : String) (e : Expiry) (s : Store)
    → (key == other) ≡ false
    → lookup other (insert key e s) ≡ lookup other s
inserted_other key other e s h = lookup-insert key other e s ∙ rw h refl

store_of : (a b : Option String × Store) → a ≡ b → a.1 ≡ b.1
store_of a b h = ap (λ (q : Option String × Store). q.1) h

alive-Lives : (now : ℕ) (o : Option Expiry) → Lives now o → alive now o ≡ 1
unfolding Lives
alive-Lives now none h = absurd h
alive-Lives now (some never) h = refl
alive-Lives now (some (at n)) h = ground arith

expire_some :
    (key other : String) (n : ℕ) (s t : Store) (o : Option Expiry)
    → expire key n s o ≡ (none, t)
    → (key == other) ≡ false
    → lookup other t ≡ lookup other s
expire_some key other n s t none h differ = ap (lookup other) (sym (store_of _ _ h))
expire_some key other n s t (some e) h differ =
    ap (lookup other) (sym (store_of _ _ h)) ∙ inserted_other key other (at n) s differ

pub redis-IsRedis : IsRedis redis
redis-IsRedis = record {
  set_sets = λ key n s t h. ap (lookup key) (sym (store_of _ _ h)) ∙ inserted_same key never s;
  set_keeps = λ key other n s t h differ.
      ap (lookup other) (sym (store_of _ _ h)) ∙ inserted_other key other never s differ;
  expires = λ key n s t h found.
      ap (lookup key) (sym (store_of _ _ (ap (expire key n s) (sym found) ∙ h)))
      ∙ inserted_same key (at n) s;
  expires_keeps = λ key other n s t h differ. expire_some key other n s t (lookup key s) h differ;
  exists_live = λ now key s h. inl (ap ok (alive-Lives now (lookup key s) h));
}
