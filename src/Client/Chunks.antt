-- ===== src/Client/Chunks.antt =====
-- client.py: the assembly of a configuration that comes in chunks. `_config_chunks` has no other writer
-- than the assemblies. Between two looks of one assembly at its chunks, others may begin, for any name;
-- they are an argument, a list for each look.
use hmmp_python_sdk.Base.{
  nat_eq, text_eq, ℕ, zero, suc, ◌<◌, ◌≡◌, ◌∙◌, refl, [], ◌∷◌, ◌++◌, List, Bytes, Text, codes,
  length, Bool-cases, Option, none, some, Result, ok, err, key_error, inl, inr, ltb, lt→ltb,
  beq_refl, arith, if◌then◌else◌,
}
use hmmp_python_sdk.Base.Dict
use hmmp_python_sdk.Base.Dict.{Dict, get-put}
use hmmp_python_sdk.Models.Config.{ConfigEntry}

abbrev pub Chunks : Type 0
Chunks = Dict Text (Dict ℕ Bytes)

-- `f"{tenant}/{group}/{data_id}"`
abbrev pub slashed : Text → Text → Text → Text
slashed tenant group data_id = tenant ++ (codes "/" ++ (group ++ (codes "/" ++ data_id)))

abbrev pub key_of : ConfigEntry → Text
key_of entry = slashed entry.tenant entry.group entry.data_id

-- `self._config_chunks[key] = {chunk_index: content}`
unfoldable pub begin : ConfigEntry → Chunks → Chunks
begin chunk chunks = Dict.put chunks (key_of chunk) ((chunk.chunk_index, chunk.content) ∷ [])

unfoldable pub begin_all : List ConfigEntry → Chunks → Chunks
begin_all [] chunks = chunks
begin_all (other ∷ others) chunks = begin_all others (begin other chunks)

abbrev pub joined : Option Bytes → Result Bytes → Result Bytes
joined none before = err key_error
joined (some content) (err e) = err e
joined (some content) (ok before) = ok (before ++ content)

-- `b"".join(chunks[i] for i in range(count))`
unfoldable pub join : Dict ℕ Bytes → ℕ → Result Bytes
join chunks zero = ok []
join chunks (suc count) = joined (Dict.get chunks count) (join chunks count)

abbrev pub whole : ConfigEntry → Result Bytes → Result ConfigEntry
whole first (err e) = err e
whole first (ok content) =
    ok (record first { content = content; total_chunks = 1; chunk_index = 0 })

abbrev pub held : Option (Dict ℕ Bytes) → ℕ
held none = 0
held (some d) = length d

abbrev pub pieces : Option (Dict ℕ Bytes) → Dict ℕ Bytes
pieces none = []
pieces (some d) = d

-- The loop: `none` where it still waits after the last look. Without the name there is a KeyError.
abbrev pub look :
    ConfigEntry → Option (Dict ℕ Bytes) → Option (Result ConfigEntry) → Option (Result ConfigEntry)
look first none later = some (err key_error)
look first (some d) later =
    if ltb (length d) first.total_chunks
    then later
    else some (whole first (join d first.total_chunks))

unfoldable pub await_chunks :
    List (List ConfigEntry) → ConfigEntry → Chunks → Option (Result ConfigEntry)
await_chunks [] first chunks = look first (Dict.get chunks (key_of first)) none
await_chunks (others ∷ rounds) first chunks =
    look first (Dict.get chunks (key_of first))
      (await_chunks rounds first (begin_all others chunks))

unfoldable pub assemble_config_chunks :
    List (List ConfigEntry) → ConfigEntry → Chunks → Option (Result ConfigEntry)
assemble_config_chunks rounds first chunks = await_chunks rounds first (begin first chunks)

-- Under a name there is one chunk.
abbrev pub HasOne : Text → Chunks → Type 0
HasOne key chunks = (d : Dict ℕ Bytes) × (Dict.get chunks key ≡ some d) × (length d ≡ 1)

begin-HasOne :
    (key : Text) (chunk : ConfigEntry) (chunks : Chunks)
    → HasOne key chunks
    → HasOne key (begin chunk chunks)
unfolding begin
begin-HasOne key chunk chunks (d, e, one) = elim (Bool-cases (text_eq.beq (key_of chunk) key)) [
  | inl same ↦ (
    (chunk.chunk_index, chunk.content) ∷ [],
    get-put chunks (key_of chunk) key ((chunk.chunk_index, chunk.content) ∷ []) ∙ rw same refl,
    refl,
  )
  | inr other ↦ (
    d,
    get-put chunks (key_of chunk) key ((chunk.chunk_index, chunk.content) ∷ []) ∙ rw other e,
    one,
  )
]

begin_all-HasOne :
    (key : Text) (others : List ConfigEntry) (chunks : Chunks)
    → HasOne key chunks
    → HasOne key (begin_all others chunks)
unfolding begin_all
begin_all-HasOne key [] chunks h = h
begin_all-HasOne key (other ∷ others) chunks h =
    begin_all-HasOne key others (begin other chunks) (begin-HasOne key other chunks h)

look_again :
    (first : ConfigEntry) (chunks : Chunks) (later : Option (Result ConfigEntry))
    → HasOne (key_of first) chunks
    → 1 < first.total_chunks
    → later ≡ none
    → look first (Dict.get chunks (key_of first)) later ≡ none
look_again first chunks later (d, e, one) h l =
    rw (e, lt→ltb (length d) first.total_chunks (omega (arith, one))) l

await_chunks-none :
    (rounds : List (List ConfigEntry)) (first : ConfigEntry) (chunks : Chunks)
    → HasOne (key_of first) chunks
    → 1 < first.total_chunks
    → await_chunks rounds first chunks ≡ none
unfolding await_chunks
await_chunks-none [] first chunks one h = look_again first chunks none one h refl
await_chunks-none (others ∷ rounds) first chunks one h =
    look_again first chunks (await_chunks rounds first (begin_all others chunks)) one h (
      await_chunks-none rounds first (begin_all others chunks)
        (begin_all-HasOne (key_of first) others chunks one) h)

-- A configuration that comes in more than one chunk is never assembled: however often the assembly
-- looks, and whichever other assemblies begin meanwhile, it still waits.
pub assembly_waits :
    (rounds : List (List ConfigEntry)) (first : ConfigEntry) (chunks : Chunks)
    → 1 < first.total_chunks
    → assemble_config_chunks rounds first chunks ≡ none
unfolding assemble_config_chunks begin
assembly_waits rounds first chunks h =
    await_chunks-none rounds first _
      (
        (first.chunk_index, first.content) ∷ [],
        get-put chunks (key_of first) (key_of first) ((first.chunk_index, first.content) ∷ [])
            ∙ rw (beq_refl (key_of first)) refl,
        refl,
      )
      h
