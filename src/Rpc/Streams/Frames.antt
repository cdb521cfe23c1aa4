-- ===== src/Rpc/Streams/Frames.antt =====
-- What FileChunkStore reads from an RpcInputStream is what the data frames of the call carry.
use distributed_cache_system.Prelude.{
  ℕ, ◌+◌, ◌-◌, ◌≤◌, ◌<◌, ◌≡◌, ◌≢◌, refl, sym, ap, ◌∙◌, inl, inr, Bool-cases, false, List, [], ◌++◌,
  Option, none, some, ◌==◌, append_assoc, length, min, take, drop, length-take, length-drop,
  take-append-drop, drop-drop, drop_of_length_le, arith,
}
use mathlib.Core.Option.{some-injective}
use distributed_cache_system.Status.{Status, is_ok, StatusOr, normalize_error, from_status}
use distributed_cache_system.Worker.Streams.{IsHonest, Delivers, at_end, more}
use distributed_cache_system.Rpc.Streams.{
  PutChunkFrame, data_bytes, metadata, payload_not_set, Reader, RpcInput, take_data, take_frame,
  rpc_read, rpc_input, rpc_input_stream,
}

module _ {R : Type 0} (reader : Reader R) where
  -- Reading frames until there are none gives data frames only, with this payload.
  pub data Carries : R → List ℕ → Type 0 where
    no_more :
        {r : R} {payload : List ℕ} → (reader.read r).0 ≡ none → payload ≡ [] → Carries r payload
    framed :
        {r : R} {payload : List ℕ} (bytes rest : List ℕ)
        → (reader.read r).0 ≡ some (data_bytes bytes)
        → payload ≡ bytes ++ rest
        → Carries (reader.read r).1 rest
        → Carries r payload

  -- How a call of Read goes on: what is left of the payload is what is still to be read.
  abbrev pub Holds : RpcInput R → List ℕ → Type 0
  Holds s bytes =
      (payload : List ℕ) × Carries s.reader payload × (bytes ≡ drop s.offset_ s.data_ ++ payload)

  take_frame_honest :
      (capacity : ℕ) (frame : Option PutChunkFrame) (s : RpcInput R)
      → (take_frame capacity frame s).0.held_value ≡ none
      → is_ok (take_frame capacity frame s).0.held_status ≡ false
  unfolding take_frame normalize_error
  take_frame_honest capacity none s h = cc
  take_frame_honest capacity (some (metadata m)) s h = refl
  take_frame_honest capacity (some payload_not_set) s h = refl
  take_frame_honest capacity (some (data_bytes bytes)) s h = ground arith

  pub rpc_input_stream-IsHonest : IsHonest (rpc_input_stream reader)
  unfolding rpc_read normalize_error
  rpc_input_stream-IsHonest s capacity h = elim (Bool-cases (capacity == 0)) [
    | inl empty ↦ rw empty refl
    | inr some_room ↦ elim (Bool-cases (s.offset_ == length s.data_)) [
      | inl used ↦
          rw (some_room, used)
            (take_frame_honest capacity (reader.read s.reader).0 _ (rw (some_room, used) at h))
      | inr left ↦ let h1 = rw (some_room, left) at h in cc h1
    ]
  ]

  -- What one call of take_data takes off.
  taken :
      (contents payload first rest : List ℕ) (offset n : ℕ)
      → first ≡ take n (drop offset contents)
      → rest ≡ drop (offset + n) contents ++ payload
      → first ++ rest ≡ drop offset contents ++ payload
  taken contents payload first rest offset n e p =
      rw
        (
          e,
          p,
          ← append_assoc (take n (drop offset contents)) (drop (offset + n) contents) payload,
          ← drop-drop offset n (offset + n) contents refl,
          take-append-drop n (drop offset contents),
        )
        refl

  nothing_left : (s : RpcInput R) → s.offset_ ≡ length s.data_ → drop s.offset_ s.data_ ≡ []
  nothing_left s used = drop_of_length_le s.offset_ s.data_ (omega arith)

  Steps : RpcInput R → StatusOr (List ℕ) → RpcInput R → Type 0
  Steps s r s' =
      (first : List ℕ)
      → r.held_value ≡ some first
      → length first ≢ 0
      → (s'.offset_ ≤ length s'.data_) × ((rest : List ℕ) → Holds s' rest → Holds s (first ++ rest))

  take_data-Steps :
      (capacity : ℕ) (s : RpcInput R)
      → s.offset_ ≤ length s.data_
      → Steps s (take_data capacity s).0 (take_data capacity s).1
  unfolding Steps take_data
  take_data-Steps capacity s le first e full =
      let n = min capacity (length s.data_ - s.offset_) in
      (
        omega arith,
        λ rest (payload, carries, p). (
          payload,
          carries,
          taken s.data_ payload first rest s.offset_ n (sym (some-injective _ _ e)) p,
        ),
      )

  take_frame-Steps :
      (capacity : ℕ) (s : RpcInput R) (frame : Option PutChunkFrame)
      → s.offset_ ≡ length s.data_
      → (reader.read s.reader).0 ≡ frame
      → Steps s
          (take_frame capacity frame (record s { reader = (reader.read s.reader).1 })).0
          (take_frame capacity frame (record s { reader = (reader.read s.reader).1 })).1
  unfolding Steps take_frame
  take_frame-Steps capacity s none used e first p full =
      absurd (full (ap length (sym (some-injective _ _ p))))
  take_frame-Steps capacity s (some (metadata m)) used e first p full = cc
  take_frame-Steps capacity s (some payload_not_set) used e first p full = cc
  take_frame-Steps capacity s (some (data_bytes bytes)) used e first p full =
      elim (Bool-cases (length bytes == 0)) [
        | inl empty ↦ cc (rw empty at p)
        | inr some_bytes ↦ rw some_bytes (
            let s' : RpcInput R = record {
              reader = (reader.read s.reader).1;
              data_ = bytes;
              offset_ = 0;
            } in
            let step = take_data-Steps capacity s' (omega arith) first (rw some_bytes at p) full in
            (
              step.0,
              λ rest holds.
                  let (payload, carries, q) = step.1 rest holds in
                  (
                    bytes ++ payload,
                    framed bytes payload e refl carries,
                    q ∙ ap (λ l. l ++ (bytes ++ payload)) (sym (nothing_left s used)),
                  ),
            ))
      ]

  from_status-Steps : (s s' : RpcInput R) (st : Status) → Steps s (from_status st) s'
  unfolding Steps from_status
  from_status-Steps s s' st first p full = cc

  rpc_read-Steps :
      (capacity : ℕ) (s : RpcInput R)
      → s.offset_ ≤ length s.data_
      → Steps s (rpc_read reader capacity s).0 (rpc_read reader capacity s).1
  unfolding rpc_read
  rpc_read-Steps capacity s le = elim (Bool-cases (capacity == 0)) [
    | inl empty ↦ rw empty (from_status-Steps s s _)
    | inr some_room ↦ elim (Bool-cases (s.offset_ == length s.data_)) [
      | inl used ↦
          rw (some_room, used)
            (take_frame-Steps capacity s (reader.read s.reader).0 (ground arith) refl)
      | inr left ↦ rw (some_room, left) (take_data-Steps capacity s le)
    ]
  ]

  take_frame-end :
      (capacity : ℕ) (s : RpcInput R) (frame : Option PutChunkFrame)
      → 0 < capacity
      → (take_frame capacity frame s).0.held_value ≡ some []
      → frame ≡ none
  unfolding take_frame
  take_frame-end capacity s none room p = refl
  take_frame-end capacity s (some (metadata m)) room p = cc
  take_frame-end capacity s (some payload_not_set) room p = cc
  take_frame-end capacity s (some (data_bytes bytes)) room p =
      elim (Bool-cases (length bytes == 0)) [
        | inl empty ↦ cc (rw empty at p)
        | inr some_bytes ↦
            let e = ap length (some-injective _ _ (rw some_bytes at p)) in
            absurd (ground (arith, e, length-take (min capacity (length bytes - 0)) bytes))
      ]

  rpc_read-end :
      (capacity : ℕ) (s : RpcInput R)
      → s.offset_ ≤ length s.data_
      → 0 < capacity
      → (rpc_read reader capacity s).0.held_value ≡ some []
      → Holds s []
  unfolding rpc_read take_data
  rpc_read-end capacity s le room p = elim (Bool-cases (capacity == 0)) [
    | inl empty ↦ absurd (ground arith)
    | inr some_room ↦ elim (Bool-cases (s.offset_ == length s.data_)) [
      | inl used ↦ (
        [],
        no_more (take_frame-end capacity _ _ room (rw (some_room, used) at p)) refl,
        rw (nothing_left s (ground arith)) refl,
      )
      | inr left ↦
          let n = min capacity (length s.data_ - s.offset_) in
          let e = ap length (some-injective _ _ (rw (some_room, left) at p)) in
          absurd (
            ground
              (arith, e, length-take n (drop s.offset_ s.data_), length-drop s.offset_ s.data_))
    ]
  ]

  Delivers-Holds :
      (capacity : ℕ)
      → 0 < capacity
      → {s s' : RpcInput R} {bytes : List ℕ} → s.offset_ ≤ length s.data_
      → Delivers (rpc_input_stream reader) capacity s bytes s'
      → Holds s bytes
  unfolding Steps
  Delivers-Holds capacity room {s} le (at_end p e q) = rw q (rpc_read-end capacity s le room p)
  Delivers-Holds capacity room {s} le (more first rest p full q d) =
      let step = rpc_read-Steps capacity s le first p full in
      rw q (step.1 rest (Delivers-Holds capacity room step.0 d))

  -- What Put reads from an RpcInputStream, to the end and with a buffer of any size but zero, is
  -- the concatenation of the data frames that follow in the call, up to the end of the call.
  pub delivered-Carries :
      (capacity : ℕ) (r : R) (s' : RpcInput R) (bytes : List ℕ)
      → 0 < capacity
      → Delivers (rpc_input_stream reader) capacity (rpc_input r) bytes s'
      → Carries r bytes
  delivered-Carries capacity r s' bytes room d =
      let (payload, carries, p) = Delivers-Holds capacity room (omega arith) d in rw p carries
