-- ===== src/Web/Request/Decode.antt =====
-- The decoding loop of GreeterRequest, `deserializeBinaryFromReader` of
-- example/boot/grpc-web/api/gen/v1/greeter_pb.js, against the meaning of the wire format.
use rk_grpc.Prelude.{
  ℕ, zero, suc, ◌<◌, String, ◌≡◌, refl, ◌≢◌, true, false, some, List, [], ◌∷◌, ◌==◌, ◌≤◌,
  Option-cases, if◌then◌else◌, arith, length, All, Bool-cases, inl, inr, sym, ◌∙◌,
}
use rk_grpc.Web.Jspb.{
  Jspb, returned, out_of_fuel, WireField, text, end_group, other, AccessorLaws, WireLaws,
  ProgressLaws, ends_group,
}
use rk_grpc.Web.Request.{get_message, read_field, deserialize_binary_from_reader}

-- What a proto3 decoder makes of the fields: the last text under number 1 wins, other numbers are
-- skipped, and an end-of-group tag ends the message.
abbrev pub last_text : List WireField → String → String
last_text [] s = s
last_text (text n t ∷ fs) s = last_text fs (if n == 1 then t else s)
last_text (end_group n ∷ fs) s = s
last_text (other n ∷ fs) s = last_text fs s

-- Field 1 is declared as a string: a field of another kind does not carry its number.
abbrev pub IsTyped : WireField → Type 0
IsTyped (text n s) = Unit
IsTyped (end_group n) = Unit
IsTyped (other n) = n ≢ 1

at_end_group :
    (f : WireField) (fs : List WireField) (s : String)
    → ends_group f ≡ true
    → s ≡ last_text (f ∷ fs) s
at_end_group (text n t) fs s e = cc
at_end_group (end_group n) fs s e = refl
at_end_group (other n) fs s e = cc

module _ (J : Jspb) (A : AccessorLaws J) (W : WireLaws J) where
  -- One round at a field that does not end a group.
  read_field_lem :
      (msg : J.Message) (r : J.Reader) (f : WireField) (fs : List WireField)
      → W.current r ≡ some (f, fs)
      → ends_group f ≡ false
      → IsTyped f
      → (msg' : J.Message) × (r' : J.Reader) × (read_field J msg r ≡ some (msg', r'))
        × (W.unread r' ≡ fs)
        × (last_text (f ∷ fs) (get_message J msg) ≡ last_text fs (get_message J msg'))
  unfolding read_field get_message
  read_field_lem msg r (text n s) fs c e t = elim (Bool-cases (n == 1)) [
    | inl one ↦
        let (r', reads, rest) = W.read_string_lem r n s fs c in
        (
          J.set_proto3_string_field msg 1 s,
          r',
          rw (W.get_field_number_lem r (text n s) fs c, one, reads),
          rest,
          rw (one, A.get_set msg 1 s),
        )
    | inr unknown ↦
        let (r', skips, rest) = W.skip_field_lem r (text n s) fs c refl in
        (msg, r', rw (W.get_field_number_lem r (text n s) fs c, unknown, skips), rest, rw unknown)
  ]
  read_field_lem msg r (end_group n) fs c e t = cc
  read_field_lem msg r (other n) fs c e t =
      let (r', skips, rest) = W.skip_field_lem r (other n) fs c refl in
      let skipped : (n == 1) ≡ false = ground (arith, t) in
      (msg, r', rw (W.get_field_number_lem r (other n) fs c, skipped, skips), rest, refl)

  pub deserialize_binary_from_reader-last_text :
      (fuel : ℕ) (msg : J.Message) (r : J.Reader) (fs : List WireField)
      → length fs < fuel
      → All IsTyped fs
      → W.unread r ≡ fs
      → (msg' : J.Message) × (deserialize_binary_from_reader J fuel msg r ≡ returned msg')
        × (get_message J msg' ≡ last_text fs (get_message J msg))
  unfolding deserialize_binary_from_reader
  deserialize_binary_from_reader-last_text zero msg r fs h t u = elim h [ ]
  deserialize_binary_from_reader-last_text (suc fuel) msg r [] h t u =
      let (r', ends) = W.next_at_end r u in (msg, rw (ends, deserialize_binary_from_reader), refl)
  deserialize_binary_from_reader-last_text (suc fuel) msg r (f ∷ fs) h t u =
      let (r', next, c) = W.next_at_field r f fs u in
      elim (Bool-cases (ends_group f)) [
        | inl ends ↦ (
          msg,
          rw (next, deserialize_binary_from_reader, W.is_end_group_lem r' f fs c, ends),
          at_end_group f fs (get_message J msg) ends,
        )
        | inr goes_on ↦
            let (msg', rest, reads, u', same) = read_field_lem msg r' f fs c goes_on t.0 in
            let (done, returns, meaning) =
              deserialize_binary_from_reader-last_text fuel msg' rest fs (omega arith) t.1 u' in
            (
              done,
              rw
                  (
                    next,
                    deserialize_binary_from_reader,
                    W.is_end_group_lem r' f fs c,
                    goes_on,
                    reads,
                  )
                  returns,
              meaning ∙ sym same,
            )
      ]

-- A round leaves no more bytes ahead of the reader, whatever the bytes are.
module _ (J : Jspb) (P : ProgressLaws J) where
  read_field_keeps :
      (msg msg' : J.Message) (r r' : J.Reader)
      → read_field J msg r ≡ some (msg', r')
      → P.left r' ≤ P.left r
  unfolding read_field
  read_field_keeps msg msg' r r' h = elim (Option-cases (J.read_string r)) [
    | inl bad ↦ elim (Option-cases (J.skip_field r)) [
      | inl worse ↦ ground arith
      | inr (s, skips) ↦ ground (arith, P.skip_keeps r s skips)
    ]
    | inr ((t, q), reads) ↦ elim (Option-cases (J.skip_field r)) [
      | inl worse ↦ ground (arith, P.read_keeps r q t reads)
      | inr (s, skips) ↦ ground (arith, P.skip_keeps r s skips, P.read_keeps r q t reads)
    ]
  ]

  pub deserialize_binary_from_reader-ne-out_of_fuel :
      (fuel : ℕ) (msg : J.Message) (r : J.Reader)
      → P.left r < fuel
      → deserialize_binary_from_reader J fuel msg r ≢ out_of_fuel
  unfolding deserialize_binary_from_reader
  deserialize_binary_from_reader-ne-out_of_fuel zero msg r h = elim h [ ]
  deserialize_binary_from_reader-ne-out_of_fuel (suc fuel) msg r h =
      elim (Option-cases (J.next_field r)) [
        | inl bad ↦ ground arith
        | inr ((false, r'), next) ↦ ground arith
        | inr ((true, r'), next) ↦ elim (Option-cases (read_field J msg r')) [
          | inl bad ↦ ground arith
          | inr ((msg', rest), reads) ↦ ground (
            arith,
            P.next_consumes r r' next,
            read_field_keeps msg msg' r' rest reads,
            deserialize_binary_from_reader-ne-out_of_fuel fuel msg' rest,
          )
        ]
      ]
