-- ===== src/Redis/Memory.antt =====
-- An in-memory server that obeys the laws of `Redis`: it shows that they can hold, and the examples
-- run on it. EXPIRE of a set or a hash only matters once seconds pass, and does nothing here.
use rtace.Base.{
  ℕ, String, Bool, true, ◌≡◌, ◌↔◌, refl, Option, some, List, [], ◌==◌, eq_iff, ◌&&◌, arith,
  if◌then◌else◌,
}
use rtace.Redis.{Redis, Stored, live, untrimmed}
use rtace.Redis.Assoc

abbrev pub Pair : Type 0
Pair = String × String

abbrev pub pair_eq : Pair → Pair → Bool
pair_eq (a, b) (c, d) = (a == c) && (b == d)

pub pair_eq_iff : (p q : Pair) → (pair_eq p q ≡ true) ↔ (p ≡ q)
pair_eq_iff (a, b) (c, d) = ground (arith, eq_iff a c, eq_iff b d)

pub record Memory (F : Type 0) : Type 0 where
  pub texts : List (String × Stored)
  pub scores : List (Pair × F)
  pub fields : List (Pair × F)

abbrev age : ℕ → String → Stored → Option Stored
age n k e = live n (some e)

abbrev trim : {F : Type 0} → (F → F → Bool) → String → F → Pair → F → Option F
trim fle k cutoff p s = if k == p.0 then untrimmed fle cutoff (some s) else some s

pub lookup-age :
    (n : ℕ) (l : List (String × Stored)) (j : String)
    → Assoc.lookup ◌==◌ eq_iff (Assoc.filter_map ◌==◌ eq_iff (age n) l) j
      ≡ live n (Assoc.lookup ◌==◌ eq_iff l j)
lookup-age n l j = ground (arith, Assoc.lookup-filter_map ◌==◌ eq_iff (age n) j l)

pub lookup-trim :
    {F : Type 0} (fle : F → F → Bool) (k : String) (x : F) (l : List (Pair × F)) (j i : String)
    → Assoc.lookup pair_eq pair_eq_iff
        (Assoc.filter_map pair_eq pair_eq_iff (trim fle k x) l)
        (j, i)
      ≡ (if k == j
          then untrimmed fle x (Assoc.lookup pair_eq pair_eq_iff l (j, i))
          else Assoc.lookup pair_eq pair_eq_iff l (j, i))
lookup-trim fle k x l j i =
    ground (arith, Assoc.lookup-filter_map pair_eq pair_eq_iff (trim fle k x) (j, i) l)

module _ (F : Type 0) (fle : F → F → Bool) where
  unfoldable pub memory : Redis F fle
  unfolding Assoc.lookup Assoc.insert Assoc.without Assoc.filter_map Assoc.count
  memory = record {
    Db = Memory F;
    lookup = λ db k. Assoc.lookup ◌==◌ eq_iff db.texts k;
    set_ex = λ k t v db. record db {
      texts = Assoc.insert ◌==◌ eq_iff k (record { value = v; ttl = t }) db.texts;
    };
    delete = λ k db. record db { texts = Assoc.without ◌==◌ eq_iff k db.texts };
    elapse = λ n db. record db { texts = Assoc.filter_map ◌==◌ eq_iff (age n) db.texts };
    zscore = λ db k m. Assoc.lookup pair_eq pair_eq_iff db.scores (k, m);
    zcard = λ db k. Assoc.count pair_eq pair_eq_iff (λ p. p.0 == k) db.scores;
    zadd = λ k x m db. record db { scores = Assoc.insert pair_eq pair_eq_iff (k, m) x db.scores };
    zremrangebyscore = λ k x db. record db {
      scores = Assoc.filter_map pair_eq pair_eq_iff (trim fle k x) db.scores;
    };
    hget = λ db k f. Assoc.lookup pair_eq pair_eq_iff db.fields (k, f);
    hset = λ k f x db. record db { fields = Assoc.insert pair_eq pair_eq_iff (k, f) x db.fields };
    expire = λ k t db. db;
    lookup-set_ex = λ k j t v db h. Assoc.lookup-insert ◌==◌ eq_iff k j _ db.texts;
    lookup-delete = λ k j db. Assoc.lookup-without ◌==◌ eq_iff k j db.texts;
    lookup-elapse = λ n db j. lookup-age n db.texts j;
    lookup-zadd = λ k m x db j. refl;
    lookup-zremrangebyscore = λ k x db j. refl;
    lookup-hset = λ k f x db j. refl;
    lookup-expire = λ k t db j h. refl;
    zscore-zadd = λ k m x db j i. Assoc.lookup-insert pair_eq pair_eq_iff (k, m) (j, i) x db.scores;
    zscore-zremrangebyscore = λ k x db j i. lookup-trim fle k x db.scores j i;
    zscore-set_ex = λ k t v db j i. refl;
    zscore-expire = λ k t db j i h. refl;
    zcard-zadd = λ k m x db.
        Assoc.count-insert pair_eq pair_eq_iff (λ p. p.0 == k) (k, m) x db.scores
          ((eq_iff k k).1 refl);
    hget-hset = λ k f x db j g. Assoc.lookup-insert pair_eq pair_eq_iff (k, f) (j, g) x db.fields;
    hget-zadd = λ k m x db j g. refl;
    hget-zremrangebyscore = λ k x db j g. refl;
    hget-set_ex = λ k t v db j g. refl;
    hget-expire = λ k t db j g h. refl;
  }

  -- the database with no key
  abbrev pub nothing : memory.Db
  unfolding memory
  nothing = record { texts = []; scores = []; fields = [] }
