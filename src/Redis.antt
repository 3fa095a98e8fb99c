-- ===== src/Redis.antt =====
-- The Redis server, a service outside the repository, as the record of the commands that the
-- program sends (common/redis_client.py gives the connection). A command is a function of the
-- database; the laws are the documented effects of the commands, by what later reads return.
mod Assoc
pub mod Memory
use rtace.Base.{
  ℕ, suc, ◌-◌, ◌<◌, ◌≡◌, String, Bool, true, false, Option, none, some, ◌==◌, ◌&&◌, leb, is_some,
  if◌then◌else◌,
}

-- What GET and TTL say of a text key: its value, and the seconds that it has left.
pub record Stored : Type 0 where
  pub value : String
  pub ttl : ℕ

-- What is left of an entry when `n` seconds have passed.
abbrev pub live : ℕ → Option Stored → Option Stored
live n none = none
live n (some e) = if leb e.ttl n then none else some (record e { ttl = e.ttl - n })

-- An entry of a sorted set that a trim up to a score leaves.
abbrev pub untrimmed : {F : Type 0} → (F → F → Bool) → F → Option F → Option F
untrimmed fle cutoff none = none
untrimmed fle cutoff (some score) = if fle score cutoff then none else some score

pub record Redis (F : Type 0) (fle : F → F → Bool) : Type 1 where
  pub Db : Type 0
  -- text keys: GET and TTL in one; SET EX and SETEX; DEL; and the passing of seconds
  pub lookup : Db → String → Option Stored
  pub set_ex : String → ℕ → String → Db → Db
  pub delete : String → Db → Db
  pub elapse : ℕ → Db → Db
  -- sorted sets: ZSCORE, ZCARD, ZADD, ZREMRANGEBYSCORE from -inf
  pub zscore : Db → String → String → Option F
  pub zcard : Db → String → ℕ
  pub zadd : String → F → String → Db → Db
  pub zremrangebyscore : String → F → Db → Db
  -- hashes: HGET and HSET of one field
  pub hget : Db → String → String → Option F
  pub hset : String → String → F → Db → Db
  -- EXPIRE
  pub expire : String → ℕ → Db → Db
  pub lookup-set_ex :
      (k j : String) (t : ℕ) (v : String) (db : Db)
      → 0 < t
      → lookup (set_ex k t v db) j
        ≡ (if k == j then some (record { value = v; ttl = t }) else lookup db j)
  pub lookup-delete :
      (k j : String) (db : Db) → lookup (delete k db) j ≡ (if k == j then none else lookup db j)
  pub lookup-elapse : (n : ℕ) (db : Db) (j : String) → lookup (elapse n db) j ≡ live n (lookup db j)
  pub lookup-zadd :
      (k m : String) (x : F) (db : Db) (j : String) → lookup (zadd k x m db) j ≡ lookup db j
  pub lookup-zremrangebyscore :
      (k : String) (x : F) (db : Db) (j : String) → lookup (zremrangebyscore k x db) j ≡ lookup db j
  pub lookup-hset :
      (k f : String) (x : F) (db : Db) (j : String) → lookup (hset k f x db) j ≡ lookup db j
  -- EXPIRE of another key
  pub lookup-expire :
      (k : String) (t : ℕ) (db : Db) (j : String)
      → (k == j) ≡ false
      → lookup (expire k t db) j ≡ lookup db j
  pub zscore-zadd :
      (k m : String) (x : F) (db : Db) (j i : String)
      → zscore (zadd k x m db) j i ≡ (if (k == j) && (m == i) then some x else zscore db j i)
  pub zscore-zremrangebyscore :
      (k : String) (x : F) (db : Db) (j i : String)
      → zscore (zremrangebyscore k x db) j i
        ≡ (if k == j then untrimmed fle x (zscore db j i) else zscore db j i)
  pub zscore-set_ex :
      (k : String) (t : ℕ) (v : String) (db : Db) (j i : String)
      → zscore (set_ex k t v db) j i ≡ zscore db j i
  pub zscore-expire :
      (k : String) (t : ℕ) (db : Db) (j i : String)
      → 0 < t
      → zscore (expire k t db) j i ≡ zscore db j i
  -- a member that is there already is not counted again
  pub zcard-zadd :
      (k m : String) (x : F) (db : Db)
      → zcard (zadd k x m db) k ≡ (if is_some (zscore db k m) then zcard db k else suc (zcard db k))
  pub hget-hset :
      (k f : String) (x : F) (db : Db) (j g : String)
      → hget (hset k f x db) j g ≡ (if (k == j) && (f == g) then some x else hget db j g)
  pub hget-zadd :
      (k m : String) (x : F) (db : Db) (j g : String) → hget (zadd k x m db) j g ≡ hget db j g
  pub hget-zremrangebyscore :
      (k : String) (x : F) (db : Db) (j g : String)
      → hget (zremrangebyscore k x db) j g ≡ hget db j g
  pub hget-set_ex :
      (k : String) (t : ℕ) (v : String) (db : Db) (j g : String)
      → hget (set_ex k t v db) j g ≡ hget db j g
  pub hget-expire :
      (k : String) (t : ℕ) (db : Db) (j g : String) → 0 < t → hget (expire k t db) j g ≡ hget db j g
