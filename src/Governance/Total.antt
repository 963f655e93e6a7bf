-- ===== src/Governance/Total.antt =====
-- Parsing a governance block ends on every input.
use hmmp_python_sdk.Base.{
  ℕ, zero, suc, ◌+◌, ◌≤◌, ◌≡◌, refl, [], ◌∷◌, Bytes, length, take, drop, length-take, length-drop,
  some, Result, ok, err, arith,
}
use hmmp_python_sdk.Codec.Endian.{from_be}
use hmmp_python_sdk.Codec.Reader.{read_bytes, read_uint, has_remaining-cons, has_remaining-nil}
use hmmp_python_sdk.Governance.Block.{GovernanceBlock, empty_block}
use hmmp_python_sdk.Governance.Parse.{read_entry, stop, after_entry, parse_loop, from_bytes}

-- What a round reads, it takes off the input: at least the tag and the length.
read_entry_takes :
    (b b' : GovernanceBlock) (s s' : Bytes)
    → read_entry b s ≡ (ok b', s')
    → length s' + 3 ≤ length s
unfolding read_entry read_uint read_bytes
read_entry_takes b b' s s' h = ground (
  arith,
  length-take 1 s,
  length-drop 1 s,
  length-take 2 (drop 1 s),
  length-drop 2 (drop 1 s),
  length-drop (from_be (take 2 (drop 1 s))) (drop 2 (drop 1 s)),
)

pub parse_loop_step :
    (fuel : ℕ) (b : GovernanceBlock) (x : ℕ) (s : Bytes)
    → parse_loop (suc fuel) b (x ∷ s) ≡ after_entry b (read_entry b (x ∷ s)) (parse_loop fuel)
unfolding parse_loop
parse_loop_step fuel b x s = rw (has_remaining-cons x s)

pub parse_loop_end : (fuel : ℕ) (b : GovernanceBlock) → parse_loop fuel b [] ≡ some (ok b)
unfolding parse_loop
parse_loop_end zero b = rw has_remaining-nil
parse_loop_end (suc fuel) b = rw has_remaining-nil

parse_loop_total :
    (fuel : ℕ) (b : GovernanceBlock) (s : Bytes)
    → length s ≤ fuel
    → (r : Result GovernanceBlock) × (parse_loop fuel b s ≡ some r)
parse_loop_total fuel b [] h = (ok b, parse_loop_end fuel b)
parse_loop_total zero b (x ∷ s) h = absurd (omega arith)
parse_loop_total (suc fuel) b (x ∷ s) h =
    rw (parse_loop_step fuel b x s)
      (go (read_entry b (x ∷ s)) refl (λ b' s'. parse_loop_total fuel b' s'))
  where
    go :
        (p : Result GovernanceBlock × Bytes)
        → read_entry b (x ∷ s) ≡ p
        → ((b' : GovernanceBlock) (s' : Bytes)
            → length s' ≤ fuel
            → (r : Result GovernanceBlock) × (parse_loop fuel b' s' ≡ some r))
        → (r : Result GovernanceBlock) × (after_entry b p (parse_loop fuel) ≡ some r)
    go (ok b', s') e ih = ih b' s' (omega (arith, read_entry_takes b b' (x ∷ s) s' e))
    go (err x', s') e ih = (stop b x', refl)

-- Parsing ends on every input, well formed or not.
pub from_bytes_total : (data' : Bytes) → (r : Result GovernanceBlock) × (from_bytes data' ≡ some r)
unfolding from_bytes
from_bytes_total data' = parse_loop_total (length data') empty_block data' (omega arith)
