-- ===== src/Governance/Prefix.antt =====
-- What becomes of a block that carries its own length in front, as build_governance_block returns
-- it, when it is parsed as the content of a frame's block.
use hmmp_python_sdk.Base.{
  ℕ, zero, suc, ◌+◌, ◌*◌, ◌/◌, ◌%◌, ◌≤◌, ◌<◌, ◌≡◌, refl, ap, ◌∙◌, sym, [], ◌∷◌, ◌++◌, Bytes, length,
  length-take, drop, some, Result, ok, err, eof_error, arith,
}
use native.Mathlib.Nat.{le_refl}
use hmmp_python_sdk.Base.Dict
use hmmp_python_sdk.Codec.Endian.{be, from_be, pack_be_ok}
use hmmp_python_sdk.Codec.Reader.{read_uint, read_bytes}
use hmmp_python_sdk.Governance.Block.{
  GovernanceBlock, empty_block, to_bytes, to_frame_bytes, add_entry,
}
use hmmp_python_sdk.Governance.Parse.{
  read_entry, after_entry, parse_loop, from_bytes, parse_governance_block,
}
use hmmp_python_sdk.Governance.Total.{parse_loop_step}
use hmmp_python_sdk.Governance.RoundTrip.{Parses, Parses-entry}

ok_injective : {x y : Bytes} → Path (Result Bytes) (ok x) (ok y) → x ≡ y
ok_injective e = cc

-- A length of one byte, in the four bytes of the prefix.
be_small : (n : ℕ) → n < 256 → be 4 n ≡ 0 ∷ 0 ∷ 0 ∷ n ∷ []
unfolding be
be_small n h =
    let first : n / 256 / 256 / 256 % 256 ≡ 0 = omega arith in
    let second : n / 256 / 256 % 256 ≡ 0 = omega arith in
    let third : n / 256 % 256 ≡ 0 = omega arith in
    let last : n % 256 ≡ n = omega arith in λ i. first i ∷ second i ∷ third i ∷ last i ∷ []

abbrev pub lost : GovernanceBlock
lost = record empty_block { unknown_tags = (0, []) ∷ [] }

short_entry :
    (n t : ℕ) (content : Bytes)
    → 1 ≤ t
    → length content < 256
    → (s : Bytes) × (read_entry lost (n ∷ t ∷ content) ≡ (err eof_error, s))
unfolding read_entry read_uint read_bytes from_be
short_entry n t [] h l = ([], refl)
short_entry n t (c ∷ content) h l =
    (drop ((0 + t) * 256 + c) content, ground (arith, length-take ((0 + t) * 256 + c) content))

stops :
    (n t : ℕ) (content : Bytes) → 1 ≤ t → length content < 256 → Parses lost (n ∷ t ∷ content) lost
stops n t content h l zero enough = absurd (omega arith)
stops n t content h l (suc fuel) enough =
    let (s, e) = short_entry n t content h l in
    parse_loop_step fuel lost n (t ∷ content) ∙ ap (λ p. after_entry lost p (parse_loop fuel)) e

prefixed :
    (n t : ℕ) (content : Bytes)
    → 1 ≤ t
    → length content < 256
    → Parses empty_block (0 ∷ 0 ∷ 0 ∷ n ∷ t ∷ content) lost
unfolding be
prefixed n t content h l =
    Parses-entry 0 [] (n ∷ t ∷ content) empty_block lost lost (omega arith) (omega arith)
      (unfold add_entry Dict.put in refl) (stops n t content h l)

-- A block with its length in front, of less than 256 bytes and with a first tag other than zero,
-- parses without an error to a block that has none of its parts: the prefix is read as an unknown
-- tag, and what follows as an entry that is too short.
pub prefixed_block_lost :
    (b : GovernanceBlock) (t : ℕ) (content bs : Bytes)
    → to_bytes b ≡ ok (t ∷ content)
    → to_frame_bytes b ≡ ok bs
    → 1 ≤ t
    → length (t ∷ content) < 256
    → parse_governance_block bs ≡ some (ok lost)
unfolding to_frame_bytes from_bytes
prefixed_block_lost b t content bs e f h l =
    let n = length (t ∷ content) in
    let layout : be 4 n ++ (t ∷ content) ≡ bs =
      ok_injective (sym (rw (e, pack_be_ok 4 n (omega arith)) refl) ∙ f) in
    rw (← layout, be_small n l) (prefixed n t content h (omega arith) _ (le_refl _))
