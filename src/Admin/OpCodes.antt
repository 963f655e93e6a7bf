-- ===== src/Admin/OpCodes.antt =====
-- The operations that name an op code by its number.
use hmmp_python_sdk.Base.{
  ℕ, ◌≡◌, ◌⊎◌, refl, inl, inr, [], ◌∷◌, Bytes, Text, true, false, Result, ok, err, ◌>>=◌,
  unicode_error, value_error, ◌++◌, length, if◌then◌else◌,
}
use hmmp_python_sdk.Constants.OpCode.{op_code}
use hmmp_python_sdk.Codec.Utf8.{encode, is_scalar, encode_char}
use hmmp_python_sdk.Codec.Writer.{write_bytes, write_u32, write_string_u16}
use hmmp_python_sdk.Admin.Responses.{
  is_ok, read_services, read_configs, read_tenants, read_policy, read_governance_state,
}
use hmmp_python_sdk.Admin.Tenants.{parsed}
use hmmp_python_sdk.Admin.Listings.{
  send_numbered, list_services, list_configs, publish_config, delete_config, list_tenants,
  get_tenant_policy, get_governance_state, migrate_connection,
}

-- A step that raises nothing but UnicodeEncodeError.
abbrev OnlyEncodes : {A : Type 0} → Result A → Type 0
OnlyEncodes (ok a) = Unit
OnlyEncodes (err e) = e ≡ unicode_error

OnlyEncodes-bind :
    {A B : Type 0} (m : Result A) (f : A → Result B)
    → OnlyEncodes m
    → ((a : A) → OnlyEncodes (f a))
    → OnlyEncodes (m >>= f)
OnlyEncodes-bind (ok a) f h k = k a
OnlyEncodes-bind (err e) f h k = h

encode-OnlyEncodes : (s : Text) → OnlyEncodes (encode s)
unfolding encode
encode-OnlyEncodes [] = tt
encode-OnlyEncodes (c ∷ s) =
    elim (is_scalar c)
      as (λ b.
        OnlyEncodes
          (if b then (do bs ← encode s; ok (encode_char c ++ bs)) else err unicode_error)) [
            | true ↦ OnlyEncodes-bind (encode s) _ (encode-OnlyEncodes s) (λ bs. tt)
            | false ↦ refl
          ]

write-OnlyEncodes : (w : Bytes) (s : Text) → OnlyEncodes (write_string_u16 w s)
unfolding write_string_u16
write-OnlyEncodes w s = OnlyEncodes-bind (encode s) _ (encode-OnlyEncodes s) (λ bs. tt)

-- The call raised ValueError, or UnicodeEncodeError on a text with no encoding.
abbrev pub IsRefused {ℓ} : {A : Type ℓ} → Result A → Type ℓ
IsRefused r = (r ≡ err value_error) ⊎ (r ≡ err unicode_error)

IsRefused-after {ℓ} :
    {A : Type 0} {B : Type ℓ} (m : Result A) (f : A → Result B)
    → OnlyEncodes m
    → ((a : A) → IsRefused (f a))
    → IsRefused (m >>= f)
IsRefused-after (ok a) f h k = k a
IsRefused-after (err e) f h k = inr (cc h)

-- None of the numbers is a member of the enumeration.
unknown :
    (op_code 0x0401 ≡ err value_error)
    × (op_code 0x0405 ≡ err value_error)
    × (op_code 0x0407 ≡ err value_error)
    × (op_code 0x0409 ≡ err value_error)
    × (op_code 0x040B ≡ err value_error)
    × (op_code 0x040D ≡ err value_error)
    × (op_code 0x040F ≡ err value_error)
unfolding op_code
unknown = (refl, refl, refl, refl, refl, refl, refl)

numbered-IsRefused {ℓ} :
    {B : Type ℓ} (send : ℕ → Bytes → Result Bytes) (n : ℕ) (body : Bytes) (k : Bytes → Result B)
    → op_code n ≡ err value_error
    → IsRefused (do response ← send_numbered send n body; k response)
numbered-IsRefused send n body k e = inl (rw e refl)

module _ (send : ℕ → Bytes → Result Bytes) where
  module _ (tenant : Text) where
    services-IsRefused : IsRefused (list_services send tenant)
    unfolding list_services
    services-IsRefused =
        IsRefused-after (write_string_u16 [] tenant) _ (write-OnlyEncodes [] tenant)
          (λ body. numbered-IsRefused send 0x0401 body (parsed read_services) unknown.0)

    policy-IsRefused : IsRefused (get_tenant_policy send tenant)
    unfolding get_tenant_policy
    policy-IsRefused =
        IsRefused-after (write_string_u16 [] tenant) _ (write-OnlyEncodes [] tenant)
          (λ body. numbered-IsRefused send 0x040D body (parsed (read_policy tenant)) unknown.5)

    configs-IsRefused : (group : Text) → IsRefused (list_configs send tenant group)
    unfolding list_configs
    configs-IsRefused group =
        IsRefused-after (write_string_u16 [] tenant) _ (write-OnlyEncodes [] tenant) (λ w.
          IsRefused-after (write_string_u16 w group) _ (write-OnlyEncodes w group)
            (λ body. numbered-IsRefused send 0x0409 body (parsed read_configs) unknown.3))

    module _ (group data_id : Text) where
      named-IsRefused {ℓ} :
          {B : Type ℓ} (f : Bytes → Result B)
          → ((w : Bytes) → IsRefused (f w))
          → IsRefused (do
            w1 ← write_string_u16 [] tenant
            w2 ← write_string_u16 w1 group
            w3 ← write_string_u16 w2 data_id
            f w3)
      named-IsRefused f h =
          IsRefused-after (write_string_u16 [] tenant) _ (write-OnlyEncodes [] tenant) (λ w1.
            IsRefused-after (write_string_u16 w1 group) _ (write-OnlyEncodes w1 group) (λ w2.
              IsRefused-after (write_string_u16 w2 data_id) _ (write-OnlyEncodes w2 data_id) h))

      delete-IsRefused : IsRefused (delete_config send tenant group data_id)
      unfolding delete_config
      delete-IsRefused =
          named-IsRefused _ (λ body. numbered-IsRefused send 0x040D body (parsed is_ok) unknown.5)

      publish-IsRefused :
          (content : Text) → IsRefused (publish_config send tenant group data_id content)
      unfolding publish_config
      publish-IsRefused content = named-IsRefused _ (λ w.
          IsRefused-after (encode content) _ (encode-OnlyEncodes content) (λ bs.
            numbered-IsRefused send 0x040B (write_bytes (write_u32 w (length bs)) bs) (parsed is_ok)
              unknown.4))

  -- Eight operations of the administration raise, whatever their arguments are and whatever a server
  -- would answer: ValueError from `OpCode(n)`, or UnicodeEncodeError from an argument.
  pub numbered_operations_raise :
      (tenant group data_id content : Text) (source_node_id target_node_id stream_id wait_ms : ℕ)
      → IsRefused (list_services send tenant)
        × IsRefused (list_configs send tenant group)
        × IsRefused (publish_config send tenant group data_id content)
        × IsRefused (delete_config send tenant group data_id)
        × IsRefused (list_tenants send)
        × IsRefused (get_tenant_policy send tenant)
        × IsRefused (get_governance_state send)
        × IsRefused (migrate_connection send source_node_id target_node_id stream_id wait_ms)
  unfolding list_tenants get_governance_state migrate_connection
  numbered_operations_raise tenant group data_id content source_node_id target_node_id stream_id
        wait_ms =
      (
        services-IsRefused tenant,
        configs-IsRefused tenant group,
        publish-IsRefused tenant group data_id content,
        delete-IsRefused tenant group data_id,
        numbered-IsRefused send 0x0407 [] (parsed read_tenants) unknown.2,
        policy-IsRefused tenant,
        numbered-IsRefused send 0x040F [] (parsed read_governance_state) unknown.6,
        numbered-IsRefused send 0x0405 _ (parsed is_ok) unknown.1,
      )
