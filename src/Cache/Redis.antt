-- ===== src/Cache/Redis.antt =====
-- backend/internal/cache/redis.go, over the go-redis client, which is a parameter: a state `R` that
-- holds the server and its clock, and the commands that the code sends. Timeouts of a context show
-- as failures of the command.
use task_management_api.Shared.{
  Bool, false, Option, none, some, List, [], ◌∷◌, ◌++◌, Bytes, bytes, length, ltb, if◌then◌else◌,
}
use task_management_api.Shared.Int.{ℤ, pos, ltb_ℤ}
use task_management_api.Cache.Errors.{Error, cache_miss, failed}
use task_management_api.Cache.Values.{
  Heap, Value, Dest, Json, marshal_error, encoded, content, unmarshal_into,
}

-- What a command comes back with.
pub data Reply (A : Type 0) : Type 0 where
  reply : A → Reply A
  failure : Bytes → Reply A

-- The commands of a pipeline.
pub data Command : Type 0 where
  s_add : (key member : Bytes) → Command
  expire : (key : Bytes) → (expiration : ℤ) → Command

pub record Client (R J : Type 0) : Type 0 where
  pub set : R → Bytes → J → ℤ → R × Option Bytes
  -- `none` is `redis.Nil`.
  pub get : R → Bytes → R × Reply (Option J)
  pub del : R → List Bytes → R × Option Bytes
  pub keys : R → Bytes → R × Reply (List Bytes)
  pub exists : R → Bytes → R × Reply ℤ
  pub exec : R → List Command → R × Option Bytes
  pub s_members : R → Bytes → R × Reply (List Bytes)
  pub ping : R → R × Option Bytes

abbrev pub tag_key : Bytes → Bytes
tag_key tag = bytes "tag:" ++ tag

-- The commands that `SetWithTags` puts into its pipeline.
abbrev pub tag_commands : Bytes → ℤ → List Bytes → List Command
tag_commands key expiration [] = []
tag_commands key expiration (tag ∷ tags) =
    s_add (tag_key tag) key ∷ expire (tag_key tag) expiration ∷ tag_commands key expiration tags

abbrev raw : Option Bytes → Option Error
raw none = none
raw (some e) = some (failed e)

module _ {R J D : Type 0} (client : Client R J) (json : Json J D) where
  unfoldable pub set : R → Heap D → Bytes → Value D → ℤ → R × Option Error
  set r heap key value expiration = elim (json.marshal (content json value heap)) [
    | marshal_error e ↦ (r, some (failed (bytes "failed to marshal value: " ++ e)))
    | encoded data' ↦
        let (r', err) = client.set r key data' expiration in
        elim err [
          | none ↦ (r', none)
          | some e ↦ (r', some (failed (bytes "failed to set cache: " ++ e)))
        ]
  ]

  unfoldable pub get : R → Heap D → Bytes → Dest → R × Heap D × Option Error
  unfolding unmarshal_into
  get r heap key dest =
      let (r', data') = client.get r key in
      elim data' [
        | reply none ↦ (r', heap, some cache_miss)
        | failure e ↦ (r', heap, some (failed (bytes "failed to get from cache: " ++ e)))
        | reply (some j) ↦
            let (heap', err) = unmarshal_into json j dest heap in
            elim err [
              | none ↦ (r', heap', none)
              | some e ↦ (r', heap', some (failed (bytes "failed to unmarshal cached data: " ++ e)))
            ]
      ]

module _ {R J : Type 0} (client : Client R J) where
  unfoldable pub delete : R → Bytes → R × Option Error
  delete r key = let (r', err) = client.del r (key ∷ []) in (r', raw err)

  unfoldable pub delete_pattern : R → Bytes → R × Option Error
  delete_pattern r pattern =
      let (r', keys) = client.keys r pattern in
      elim keys [
        | failure e ↦ (
          r',
          some (failed (bytes "failed to get keys for pattern " ++ (pattern ++ (bytes ": " ++ e)))),
        )
        | reply ks ↦
            let (r'', err) = client.del r' ks in
            if ltb 0 (length ks) then (r'', raw err) else (r', none)
      ]

  unfoldable pub exists : R → Bytes → R × Bool × Option Error
  exists r key =
      let (r', result) = client.exists r key in
      elim result [
        | failure e ↦ (r', false, some (failed e))
        | reply n ↦ (r', ltb_ℤ (pos 0) n, none)
      ]

  unfoldable pub invalidate_by_tag : R → Bytes → R × Option Error
  invalidate_by_tag r tag =
      let (r', members) = client.s_members r (tag_key tag) in
      elim members [
        | failure e ↦ (r', some (failed (bytes "failed to get tag members: " ++ e)))
        | reply ks ↦
            let (r'', err) = client.del r' (ks ++ tag_key tag ∷ []) in
            if ltb 0 (length ks) then (r'', raw err) else (r', none)
      ]

  unfoldable pub health : R → R × Option Error
  health r = let (r', err) = client.ping r in (r', raw err)

module _ {R J D : Type 0} (client : Client R J) (json : Json J D) where
  unfoldable pub set_with_tags : R → Heap D → Bytes → Value D → ℤ → List Bytes → R × Option Error
  unfolding set
  set_with_tags r heap key value expiration tags =
      let (r', err) = set client json r heap key value expiration in
      let (r'', err') = client.exec r' (tag_commands key expiration tags) in
      elim err [ some e ↦ (r', some e) | none ↦ (r'', raw err') ]
