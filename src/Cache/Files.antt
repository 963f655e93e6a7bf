-- ===== src/Cache/Files.antt =====
-- The snapshot files of the configuration cache: what is loaded after something was put.
use hmmp_python_sdk.Base.{
  ℕ, ◌≡◌, ◌≢◌, refl, ◌∙◌, ap, [], ◌∷◌, Bytes, Text, All, Bool, true, false, ◌&&◌, some, ok, ◌==◌,
  ==_iff, Bool-cases, Result-cases, inl, inr, if◌then◌else◌, text_eq, beq_refl, arith,
}
use hmmp_python_sdk.Base.Dict
use hmmp_python_sdk.Base.Dict.{Dict, get-put}
use hmmp_python_sdk.Codec.Utf8.{
  encode, is_scalar, IsText, encode-IsText, utf8_round_trip, decode-encode_ok,
}
use hmmp_python_sdk.Cache.Keys.{sanitize_filename}
use hmmp_python_sdk.Cache.Configs.{
  ConfigCache, newlines, universal_newlines, compute_md5, restore, save_snapshot, put,
  load_from_snapshot,
}

newlines-cons :
    (after : Bool) (c : ℕ) (s : Text)
    → newlines after (c ∷ s) ≡ (
        if c == 13
        then 10 ∷ newlines true s
        else if after && c == 10
        then newlines false s
        else c ∷ newlines false s)
unfolding newlines
newlines-cons after c s = ground arith

IsText-newlines : (after : Bool) (s : Text) → IsText s → IsText (newlines after s)
IsText-newlines after [] h = unfold newlines in tt
IsText-newlines after (c ∷ s) h =
    let t = IsText-newlines true s h.1 in
    let f = IsText-newlines false s h.1 in
    rw (newlines-cons after c s) (elim (Bool-cases (c == 13)) [
      | inl r ↦ rw r (unfold is_scalar in refl, t)
      | inr r ↦
          rw r (elim (Bool-cases (after && c == 10)) [ inl n ↦ rw n f | inr n ↦ rw n (h.0, f) ])
    ])

-- A text with no "\r" is read as it is.
pub newlines_id : (s : Text) → All (λ c. c ≢ 13) s → newlines false s ≡ s
newlines_id [] h = unfold newlines in refl
newlines_id (c ∷ s) h =
    newlines-cons false c s ∙ ground (arith, newlines_id s h.1, ==_iff c 13, h.0)

module _ (md5 : Bytes → Bytes) (allows : Text → Bool) where
  -- The file that `put` wrote.
  put-file :
      (now : ℕ) (key content : Text) (encoded : Bytes) (files : Dict Text Bytes)
      (c c' : ConfigCache)
      → encode content ≡ ok encoded
      → put md5 allows now key content c ≡ (c', ok tt)
      → c.snapshot_dir ≡ some files
      → allows (sanitize_filename key) ≡ true
      → c'.snapshot_dir ≡ some (Dict.put files (sanitize_filename key) encoded)
  unfolding put compute_md5 save_snapshot
  put-file now key content encoded files c c' e h dir may = ground (arith, e, h, dir, may)

  -- After a configuration was put, with a snapshot directory and a file that may be written and read:
  -- loading it, or any other configuration whose file has the same name, gives back its content with
  -- every line end read as "\n", and puts it into the cache under the name that was asked for.
  pub load-put :
      (now later : ℕ) (key other content : Text) (files : Dict Text Bytes) (c c' : ConfigCache)
      → put md5 allows now key content c ≡ (c', ok tt)
      → c.snapshot_dir ≡ some files
      → allows (sanitize_filename key) ≡ true
      → sanitize_filename other ≡ sanitize_filename key
      → (digest : Bytes) × (load_from_snapshot md5 allows later other c'
          ≡ ok (
            restore md5 allows later other (universal_newlines content) digest c',
            some (universal_newlines content),
          ))
  unfolding put compute_md5 load_from_snapshot universal_newlines
  load-put now later key other content files c c' h dir may same =
      elim (Result-cases (encode content)) [
        | inl (encoded, e) ↦
            let (bytes, e', _) =
              utf8_round_trip (newlines false content)
                (IsText-newlines false content (encode-IsText content encoded e)) in
            (
              md5 bytes,
              rw
                  (
                    put-file now key content encoded files c c' e h dir may,
                    same,
                    may,
                    get-put files (sanitize_filename key) (sanitize_filename key) encoded,
                    beq_refl (sanitize_filename key),
                  )
                  (rw (decode-encode_ok content encoded e) (rw e' refl)),
            )
        | inr (x, e) ↦ absurd (cc (ap (λ p. p.1) (rw e at h)))
      ]
