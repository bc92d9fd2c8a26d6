-- ===== src/Cache/Values.antt =====
-- The `interface{}` values that go into and out of a cache, the variables of callers that they may
-- point to, and `copyValue` of backend/internal/cache/multilevel.go. encoding/json enters by its two
-- functions, over types of documents and of encoded data.
use task_management_api.Shared.{ℕ, Option, none, some, Bytes, bytes, ◌++◌, if◌then◌else◌, ◌==◌}
use task_management_api.Cache.Errors.{Error, failed}

-- The variables of callers, by address.
abbrev pub Heap : Type 0 → Type 0
Heap D = ℕ → D

abbrev pub assign : {D : Type 0} → Heap D → ℕ → D → Heap D
assign heap p d q = if p == q then d else heap q

-- A value is a document, or a pointer to a variable.
pub data Value (D : Type 0) : Type 0 where
  plain : D → Value D
  pointer : ℕ → Value D

-- The argument `dest` of a read.
pub data Dest : Type 0 where
  not_pointer nil_pointer : Dest
  to : ℕ → Dest

pub data Marshalled (J : Type 0) : Type 0 where
  encoded : J → Marshalled J
  marshal_error : Bytes → Marshalled J

-- `Unmarshal` works on the old content of the destination, and may change it before it fails; its
-- error on what is no pointer is `invalid_unmarshal`.
pub record Json (J D : Type 0) : Type 0 where
  pub marshal : D → Marshalled J
  pub unmarshal : J → D → D × Option Bytes
  pub invalid_unmarshal : Dest → Bytes

module _ {J D : Type 0} (json : Json J D) where
  abbrev pub content : Value D → Heap D → D
  content (plain d) heap = d
  content (pointer p) heap = heap p

  -- `json.Unmarshal`, which refuses what is no pointer.
  unfoldable pub unmarshal_into : J → Dest → Heap D → Heap D × Option Bytes
  unmarshal_into j not_pointer heap = (heap, some (json.invalid_unmarshal not_pointer))
  unmarshal_into j nil_pointer heap = (heap, some (json.invalid_unmarshal nil_pointer))
  unmarshal_into j (to p) heap = let (d, err) = json.unmarshal j (heap p) in (assign heap p d, err)

  copy_value_via_json : Value D → Dest → Heap D → Heap D × Option Error
  unfolding unmarshal_into
  copy_value_via_json src dest heap = elim (json.marshal (content src heap)) [
    | marshal_error e ↦ (heap, some (failed (bytes "failed to marshal source value: " ++ e)))
    | encoded j ↦
        let (heap', err) = unmarshal_into j dest heap in
        elim err [
          | none ↦ (heap', none)
          | some e ↦ (heap', some (failed (bytes "failed to unmarshal to destination: " ++ e)))
        ]
  ]

  unfoldable pub copy_value : Value D → Dest → Heap D → Heap D × Option Error
  unfolding copy_value_via_json
  copy_value src not_pointer heap = (heap, some (failed (bytes "destination must be a pointer")))
  copy_value src nil_pointer heap = (heap, some (failed (bytes "destination pointer is nil")))
  copy_value src (to p) heap = copy_value_via_json src (to p) heap
