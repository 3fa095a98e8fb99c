-- ===== src/Enforcement/Listing.antt =====
-- `list_rules` of common/enforcement.py. SCAN is an argument: the keys that it finds for a prefix.
use Prim.Native.Char.{Char, code}
use text.Mathlib.TextLemmas.{cons-append, nil-append}
use text.Mathlib.TextEquality.{Char-path}
use rtace.Base.{
  ℕ, ◌+◌, String, ◌++◌, ◌≡◌, refl, sym, ap, ◌∙◌, Bool, true, false, ◌||◌, Option, List, [], ◌∷◌,
  map, All, length, eqb, if◌then◌else◌, Bool-cases, inl, inr, arith,
}
use rtace.Redis.{Redis, Stored}
use rtace.Enforcement.{
  replace, sanitize_ip_for_key, quarantine_key, step_up_key, ip_block_key, quarantine_key_prefix,
  step_up_key_prefix, ip_block_key_prefix,
}

-- `key[len(prefix):]`
unfoldable pub strip : String → String → String
strip String.[] key = key
strip (String.◌∷◌ c prefix) String.[] = ""
strip (String.◌∷◌ c prefix) (String.◌∷◌ d key) = strip prefix key

-- `c in s`, for one character
unfoldable pub has : Char → String → Bool
has c String.[] = false
has c (String.◌∷◌ d s) = eqb (code d) (code c) || has c s

-- The subject of a key: the address of a block is written with colons again.
unfoldable pub user_of : String → String → String
user_of prefix key = strip prefix key

unfoldable pub ip_of : String → String → String
ip_of prefix key =
    let subject = strip prefix key in if has "-" subject then replace "-" ":" subject else subject

-- One entry of the listing: TTL and GET in one, `none` where the key is gone since the scan.
pub record Rule : Type 0 where
  pub subject : String
  pub key : String
  pub stored : Option Stored

pub record Rules : Type 0 where
  pub quarantines : List Rule
  pub step_ups : List Rule
  pub ip_blocks : List Rule
  pub count : ℕ

module _ {F : Type 0} {fle : F → F → Bool} (r : Redis F fle)
    (scan : r.Db → String → List String) where
  open r use {Db, lookup}

  unfoldable pub rules_of : (String → String) → Db → List String → List Rule
  rules_of subject_of db [] = []
  rules_of subject_of db (key ∷ keys) =
      record { subject = subject_of key; key = key; stored = lookup db key }
      ∷ rules_of subject_of db keys

  unfoldable pub list_rules : Db → Rules
  list_rules db =
      let group = λ (prefix : String) (subject_of : String → String → String).
        rules_of (subject_of prefix) db (scan db prefix) in
      let quarantines = group quarantine_key_prefix user_of in
      let step_ups = group step_up_key_prefix user_of in
      let ip_blocks = group ip_block_key_prefix ip_of in
      record {
        quarantines = quarantines;
        step_ups = step_ups;
        ip_blocks = ip_blocks;
        count = length quarantines + (length step_ups + length ip_blocks);
      }

strip-append : (prefix s : String) → strip prefix (prefix ++ s) ≡ s
unfolding strip
strip-append String.[] s = nil-append s
strip-append (String.◌∷◌ c prefix) s =
    ap (strip (String.◌∷◌ c prefix)) (cons-append c prefix s) ∙ strip-append prefix s

-- Writing the colons as dashes and back gives an address that had no dash.
restored : (ip : String) → has "-" ip ≡ false → replace "-" ":" (replace ":" "-" ip) ≡ ip
unfolding replace has
restored String.[] h = refl
restored (String.◌∷◌ c s) h =
    let ih = restored s (ground arith) in
    elim (Bool-cases (eqb (code c) (code ":"))) [
      | inl colon ↦
          let e : code c ≡ code ":" = ground arith in
          rw colon
            (ap (λ t. String.◌∷◌ ":" t) ih ∙ ap (λ d. String.◌∷◌ d s) (sym (Char-path c ":" e)))
      | inr other ↦
          let dash : eqb (code c) (code "-") ≡ false = ground arith in
          rw (other, dash) (ap (λ t. String.◌∷◌ c t) ih)
    ]

plain : (ip : String) → has "-" (replace ":" "-" ip) ≡ false → replace ":" "-" ip ≡ ip
unfolding replace has
plain String.[] h = refl
plain (String.◌∷◌ c s) h = elim (Bool-cases (eqb (code c) (code ":"))) [
  | inl colon ↦ let q : true ≡ false = (rw colon at h) in cc
  | inr other ↦
      let tail : has "-" (replace ":" "-" s) ≡ false = ground arith in
      rw other (ap (λ t. String.◌∷◌ c t) (plain s tail))
]

-- The address that a block is listed under.
ip_of-ip_block_key :
    (ip : String) → has "-" ip ≡ false → ip_of ip_block_key_prefix (ip_block_key ip) ≡ ip
unfolding ip_of ip_block_key sanitize_ip_for_key
ip_of-ip_block_key ip h =
    rw (strip-append ip_block_key_prefix (replace ":" "-" ip))
      (elim (Bool-cases (has "-" (replace ":" "-" ip))) [
        | inl dashed ↦ rw dashed (restored ip h)
        | inr undashed ↦ rw undashed (plain ip undashed)
      ])

-- The address has no dash, as neither IPv4 nor IPv6 has.
abbrev pub NoDash : String → Type 0
NoDash ip = has "-" ip ≡ false

module _ {F : Type 0} {fle : F → F → Bool} (r : Redis F fle)
    (scan : r.Db → String → List String) where
  open r use {Db, lookup}

  -- the entry that a subject's rule should have
  abbrev pub entry : (String → String) → Db → String → Rule
  entry key_of db subject = record {
    subject = subject;
    key = key_of subject;
    stored = lookup db (key_of subject);
  }

  rules_of-entry :
      (subject_of key_of : String → String) (P : String → Type 0) (db : Db) (subjects : List String)
      → ((s : String) → P s → subject_of (key_of s) ≡ s)
      → All P subjects
      → rules_of r scan subject_of db (map key_of subjects) ≡ map (entry key_of db) subjects
  unfolding rules_of
  rules_of-entry subject_of key_of P db [] h all = refl
  rules_of-entry subject_of key_of P db (s ∷ subjects) h (hs, all) =
      rw (h s hs, rules_of-entry subject_of key_of P db subjects h all) refl

  length-map : {A B : Type 0} (f : A → B) (l : List A) → length (map f l) ≡ length l
  length-map f [] = refl
  length-map f (x ∷ l) = omega (arith, length-map f l)

  user_entries :
      (prefix : String) (db : Db) (users : List String)
      → rules_of r scan (user_of prefix) db (map (λ u. prefix ++ u) users)
        ≡ map (entry (λ u. prefix ++ u) db) users
  unfolding rules_of user_of
  user_entries prefix db [] = refl
  user_entries prefix db (u ∷ users) = rw (strip-append prefix u, user_entries prefix db users) refl

  -- If the scans find the keys of some quarantined users, some users with a pending step-up, and
  -- some blocked addresses without a dash, then `list_rules` lists exactly these subjects, in their
  -- order and each spelled as it was when the rule was made, an IPv6 address with its colons, each
  -- with what is stored under its key; and it counts them.
  pub list_rules_subjects :
      (db : Db) (users pending ips : List String)
      → scan db quarantine_key_prefix ≡ map quarantine_key users
      → scan db step_up_key_prefix ≡ map step_up_key pending
      → scan db ip_block_key_prefix ≡ map ip_block_key ips
      → All NoDash ips
      → let rules = list_rules r scan db in
        (rules.quarantines ≡ map (entry quarantine_key db) users)
        × (rules.step_ups ≡ map (entry step_up_key db) pending)
        × (rules.ip_blocks ≡ map (entry ip_block_key db) ips)
        × (rules.count ≡ length users + (length pending + length ips))
  unfolding list_rules quarantine_key step_up_key
  list_rules_subjects db users pending ips hu hp hi none_dashed =
      let q = user_entries quarantine_key_prefix db users in
      let s = user_entries step_up_key_prefix db pending in
      let i =
        rules_of-entry (ip_of ip_block_key_prefix) ip_block_key NoDash db ips ip_of-ip_block_key
          none_dashed in
      rw (hu, hp, hi, q, s, i)
        (
          refl,
          refl,
          refl,
          omega (
            arith,
            length-map (entry quarantine_key db) users,
            length-map (entry step_up_key db) pending,
            length-map (entry ip_block_key db) ips,
          ),
        )
