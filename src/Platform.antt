-- ===== src/Platform.antt =====
-- What the program takes from Python's standard library and from its environment without having
-- it in the repository: doubles, `datetime`, hashing, UUIDs, and JSON texts. The laws are the
-- documented ones that the program relies on.
pub mod Sample
pub mod Signed
use rtace.Base.{ℕ, String, Bool, ◌≡◌, List}
use rtace.Number.{Number}

-- JSON values, also the values of a `dict[str, Any]`.
mutual
  pub data Json (F : Type 0) : Type 0 where
    null : Json F
    boolean : Bool → Json F
    integer : ℕ → Json F
    double : F → Json F
    text : String → Json F
    array : Items F → Json F
    object : Fields F → Json F

  pub data Items (F : Type 0) : Type 0 where
    nil : Items F
    cons : Json F → Items F → Items F

  pub data Fields (F : Type 0) : Type 0 where
    end : Fields F
    field : String → Json F → Fields F → Fields F

pub record Platform : Type 1 where
  pub number : Number
  pub open number use *
  -- `datetime`, `datetime.timestamp()`, `datetime.isoformat()`
  pub Time : Type 0
  pub timestamp : Time → F
  pub isoformat : Time → String
  -- `hashlib.sha256(payload.encode()).hexdigest()`
  pub sha256 : String → String
  -- `uuid.uuid5(NAMESPACE_URL, identity)`
  pub uuid5 : String → String
  -- `str(n)`
  pub str : ℕ → String
  -- `str(value)` of a JSON value that is not a text
  pub show : Json F → String
  -- `json.dumps` and `json.loads` of a list of texts
  pub dumps : List String → String
  pub loads : String → List String
  pub loads-dumps : (l : List String) → loads (dumps l) ≡ l
