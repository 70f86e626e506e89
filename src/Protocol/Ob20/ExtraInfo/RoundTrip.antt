-- ===== src/Protocol/Ob20/ExtraInfo/RoundTrip.antt =====
-- Extra-info records read back, and the fuel of the parser.
use obconnector_go.Common.{
  ℕ, zero, suc, ◌^◌, ◌≤◌, ◌<◌, ◌≡◌, refl, ◌∙◌, inl, inr, List, [], ◌∷◌, ◌++◌, arith, ltb, leb,
  le→leb, leb→le, ltb-false→le, true, false, Bool-cases, length, drop, All, slice, length-append,
  length-drop, take-append, drop-append, take_all, ◌-◌, sym, subst, unexpected_eof, Outcome, ok,
  ◌>>=◌, ◌>>◌, guard, span, span-ok, Answers, Answers-bind,
}
use obconnector_go.Common.Bytes.{Bytes, le_bytes, le_value}
use obconnector_go.Protocol.Ob20.ExtraInfo.{
  Ob20ExtraInfo, encode_info, total_len, parse_infos, parse_ob20_extra_info,
}

abbrev pub Encodable : Ob20ExtraInfo → Type 0
Encodable e = (e.info_type < 2 ^ 16) × (length e.content < 2 ^ 32)

abbrev pub encode_infos : List Ob20ExtraInfo → Bytes
encode_infos [] = []
encode_infos (e ∷ es) = encode_info e ++ encode_infos es

pub length-encode_info : (e : Ob20ExtraInfo) → length (encode_info e) ≡ total_len e
unfolding encode_info le_bytes
length-encode_info e = omega arith

encoded_type :
    (e : Ob20ExtraInfo) (rest : Bytes)
    → Encodable e
    → le_value (slice 0 2 (encode_info e ++ rest)) ≡ e.info_type
unfolding encode_info le_bytes le_value
encoded_type e rest h = omega arith

encoded_size :
    (e : Ob20ExtraInfo) (rest : Bytes)
    → Encodable e
    → le_value (slice 2 6 (encode_info e ++ rest)) ≡ length e.content
unfolding encode_info le_bytes le_value
encoded_size e rest h = omega arith

encoded_content :
    (e : Ob20ExtraInfo) (rest : Bytes) → drop 6 (encode_info e ++ rest) ≡ e.content ++ rest
unfolding encode_info le_bytes
encoded_content e rest = refl

-- A round on six bytes at least: none of its slices panics.
parse_infos-round :
    (fuel : ℕ) (bytes : Bytes)
    → 6 ≤ length bytes
    → parse_infos (suc fuel) bytes ≡ (
        let size = le_value (slice 2 6 bytes) in
        let rest = drop 6 bytes in
        guard (leb size (length rest)) unexpected_eof >> (do
          content ← span 0 size rest
          infos ← parse_infos fuel (drop size rest)
          let info : Ob20ExtraInfo = record {
            info_type = le_value (slice 0 2 bytes);
            content = content;
          }
          ok (info ∷ infos)))
unfolding parse_infos
parse_infos-round fuel bytes h =
    let some_bytes : ltb 0 (length bytes) ≡ true = ground arith in
    let long : ltb (length bytes) 6 ≡ false = ground arith in
    let all : slice 6 (length bytes) bytes ≡ drop 6 bytes =
      take_all (length bytes - 6) (drop 6 bytes) (omega (arith, length-drop 6 bytes)) in
    rw
      (
        some_bytes,
        long,
        span-ok 0 2 bytes (omega arith) (omega arith),
        span-ok 2 6 bytes (omega arith) h,
        span-ok 6 (length bytes) bytes h (omega arith),
        all,
      )
      refl

parse_step :
    (fuel : ℕ) (e : Ob20ExtraInfo) (rest : Bytes)
    → Encodable e
    → parse_infos (suc fuel) (encode_info e ++ rest) ≡ (parse_infos fuel rest >>= λ es. ok (e ∷ es))
parse_step fuel e rest h =
    let fits : length e.content ≤ length (e.content ++ rest) =
      omega (arith, length-append e.content rest) in
    let read : slice 0 (length e.content) (e.content ++ rest) ≡ e.content =
      take-append (length e.content - 0) e.content rest (omega arith) in
    parse_infos-round fuel (encode_info e ++ rest)
      (omega (arith, length-append (encode_info e) rest, length-encode_info e))
    ∙ rw
        (
          encoded_type e rest h,
          encoded_size e rest h,
          encoded_content e rest,
          span-ok 0 (length e.content) (e.content ++ rest) (omega arith) fits,
          le→leb (length e.content) (length (e.content ++ rest)) fits,
          read,
          drop-append (length e.content) e.content rest refl,
        )
        refl

parse_infos-encode :
    (fuel : ℕ) (es : List Ob20ExtraInfo)
    → All Encodable es
    → length (encode_infos es) ≤ fuel
    → parse_infos fuel (encode_infos es) ≡ ok es
parse_infos-encode zero [] h f = unfold parse_infos in refl
parse_infos-encode (suc fuel) [] h f = unfold parse_infos in refl
parse_infos-encode zero (e ∷ es) h f =
    absurd (omega (arith, length-append (encode_info e) (encode_infos es), length-encode_info e))
parse_infos-encode (suc fuel) (e ∷ es) (he, hes) f =
    parse_step fuel e (encode_infos es) he
    ∙ rw (
        parse_infos-encode fuel es hes
          (omega (arith, length-append (encode_info e) (encode_infos es), length-encode_info e)))

-- The parser gives back every sequence of records whose types and sizes fit their fields.
pub parse-encode_infos :
    (es : List Ob20ExtraInfo) → All Encodable es → parse_ob20_extra_info (encode_infos es) ≡ ok es
unfolding parse_ob20_extra_info
parse-encode_infos es h = parse_infos-encode (length (encode_infos es)) es h (omega arith)

content-Answers :
    (e : Ob20ExtraInfo → Outcome (List Ob20ExtraInfo)) (size typ : ℕ) (rest : Bytes)
    → ((i : Ob20ExtraInfo) → Answers (e i))
    → Answers (
        guard (leb size (length rest)) unexpected_eof
        >> (do content ← span 0 size rest; e (record { info_type = typ; content = content })))
content-Answers e size typ rest h = elim (Bool-cases (leb size (length rest))) [
  | inl f ↦ rw (span-ok 0 size rest (omega arith) (leb→le size (length rest) f), f) (h _)
  | inr f ↦ rw f tt
]

parse_infos-Answers :
    (fuel : ℕ) (bytes : Bytes) → length bytes ≤ fuel → Answers (parse_infos fuel bytes)
unfolding parse_infos
parse_infos-Answers zero bytes h = ground arith
parse_infos-Answers (suc fuel) bytes h = elim (Bool-cases (ltb (length bytes) 6)) [
  | inl short ↦ ground arith
  | inr long ↦
      let size = le_value (slice 2 6 bytes) in
      let enough = ltb-false→le (length bytes) 6 long in
      subst Answers (sym (parse_infos-round fuel bytes enough)) (
        content-Answers
          (λ i. parse_infos fuel (drop size (drop 6 bytes)) >>= λ infos. ok (i ∷ infos)) size
          (le_value (slice 0 2 bytes)) (drop 6 bytes)
          λ i.
            Answers-bind (parse_infos fuel (drop size (drop 6 bytes))) _
              (parse_infos-Answers fuel (drop size (drop 6 bytes))
                (omega (arith, length-drop 6 bytes, length-drop size (drop 6 bytes))))
              λ _ _. tt)
]

-- The parser answers every input with records or an error: it comes to an end, and none of its slices is out of range.
pub parse_ob20_extra_info-Answers : (bytes : Bytes) → Answers (parse_ob20_extra_info bytes)
unfolding parse_ob20_extra_info
parse_ob20_extra_info-Answers bytes = parse_infos-Answers (length bytes) bytes (omega arith)
