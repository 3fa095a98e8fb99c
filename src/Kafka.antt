-- ===== src/Kafka.antt =====
-- common/kafka_client.py: the producer's error latch, and the decoding of a record's value. The
-- broker and kafka-python are outside: what becomes of each send is an argument of the model.
pub mod Delivery
pub mod Healthy
use rtace.Base.{
  ℕ, suc, ◌+◌, String, Bool, true, false, Option, none, some, List, [], ◌∷◌, append, if◌then◌else◌,
}
use rtace.Platform.{Json, null}

pub record Message (V : Type 0) : Type 0 where
  pub topic : String
  pub value : V
  pub key : Option String

-- What becomes of one `producer.send`: the in-sync replicas acknowledge it; its error callback runs
-- while `flush` waits for it; or it fails at once, by a KafkaError or by a callback that runs before
-- anything else happens.
pub data Fate : Type 0 where
  acknowledged failed refused : Fate

-- A KafkaProducer with the attribute `_rtace_last_error`. `fates` says what becomes of the n-th
-- send, and an error is known by the number of its send.
pub record Producer (V : Type 0) : Type 0 where
  pub fates : ℕ → Fate
  pub sends : ℕ
  pub buffered : List (ℕ × Message V)
  pub delivered : List (Message V)
  pub last_error : Option ℕ
  -- `kafka_send_failures_total` by topic, the newest last
  pub send_failures : List String

module _ {V : Type 0} where
  -- The error callback `_on_error`, and the same steps after a KafkaError: count and latch.
  abbrev pub latch : ℕ → String → Producer V → Producer V
  latch n topic pr = record pr {
    last_error = some n;
    send_failures = append pr.send_failures (topic ∷ []);
  }

  unfoldable pub send_message : Message V → Producer V → Producer V
  send_message m pr =
      let n = pr.sends in
      let counted = record pr { sends = suc n } in
      let queued = record counted { buffered = append pr.buffered ((n, m) ∷ []) } in
      elim (pr.fates n) [ refused ↦ latch n m.topic counted | _ ↦ queued ]

  unfoldable pub reset_send_errors : Producer V → Producer V
  reset_send_errors pr = record pr { last_error = none }

  -- One buffered send is resolved.
  unfoldable pub resolve : ℕ → Message V → Producer V → Producer V
  resolve n m pr =
      let done = record pr { delivered = append pr.delivered (m ∷ []) } in
      elim (pr.fates n) [ acknowledged ↦ done | _ ↦ latch n m.topic pr ]

  unfoldable pub resolve_all : List (ℕ × Message V) → Producer V → Producer V
  resolve_all [] pr = pr
  resolve_all ((n, m) ∷ rest) pr = resolve_all rest (resolve n m pr)

  -- `producer.flush()`: it returns when every buffered send is resolved.
  unfoldable pub flush : Producer V → Producer V
  unfolding resolve_all
  flush pr = resolve_all pr.buffered (record pr { buffered = [] })

  -- `false`: a KafkaError is raised, and the latch is cleared.
  unfoldable pub flush_and_verify : Producer V → Bool × Producer V
  flush_and_verify pr =
      let pr' = flush pr in
      elim pr'.last_error [
        | none ↦ (true, pr')
        | some n ↦ (false, record pr' { last_error = none })
      ]

-- `decode_json` over `json.loads(raw.decode("utf-8"))`, which is `none` where that raises; its
-- ValueError is `none`. An empty value is a tombstone, and a JSON null is read as Python's None.
unfoldable pub decode_json :
    {F : Type 0} → (List ℕ → Option (Json F)) → Option (List ℕ) → Option (Option (Json F))
decode_json loads none = some none
decode_json loads (some []) = some none
decode_json loads (some (b ∷ raw)) = elim (loads (b ∷ raw)) [
  | none ↦ none
  | some null ↦ some none
  | some v ↦ some (some v)
]
