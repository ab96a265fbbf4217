-- ===== src/Shred/VaultList.antt =====
-- `parse_vault_list` of src/shred/vault_watch.rs: the strict parser of a list of vaults.
use feed_mux.Prelude.{
  ◌≡◌, refl, arith, List, [], ◌∷◌, false, some, if◌then◌else◌, Text, codes, is_empty, Result, ok,
  err, Bool-cases, ◌⊎◌, inl, inr,
}
use feed_mux.Prelude.Words.{trim, split}
use feed_mux.Config.{
  Base58Decode, Env, Pubkey, PubkeyError, vaults_of, parse_wallet_pubkey,
  parse_shred_watch_vaults_from_env,
}

pub data VaultListError : Type 0 where
  invalid_vault : PubkeyError → VaultListError
  no_vaults : VaultListError

abbrev prepend : Pubkey → Result VaultListError (List Pubkey) → Result VaultListError (List Pubkey)
prepend pk (ok pks) = ok (pk ∷ pks)
prepend pk (err e) = err e

-- The loop over the parts.
unfoldable pub strict_vaults_of : Base58Decode → List Text → Result VaultListError (List Pubkey)
unfolding parse_wallet_pubkey
strict_vaults_of base58 [] = ok []
strict_vaults_of base58 (part ∷ parts) =
    let rest = strict_vaults_of base58 parts in
    if is_empty (trim part) then rest else elim (parse_wallet_pubkey base58 (trim part)) [
      | ok pk ↦ prepend pk rest
      | err e ↦ err (invalid_vault e)
    ]

abbrev non_empty : Result VaultListError (List Pubkey) → Result VaultListError (List Pubkey)
non_empty (err e) = err e
non_empty (ok []) = err no_vaults
non_empty (ok (pk ∷ pks)) = ok (pk ∷ pks)

unfoldable pub parse_vault_list : Base58Decode → Text → Result VaultListError (List Pubkey)
unfolding strict_vaults_of
parse_vault_list base58 raw = non_empty (strict_vaults_of base58 (split b',' raw))

prepend_ok :
    (pk : Pubkey) (o : Result VaultListError (List Pubkey)) (pks : List Pubkey)
    → prepend pk o ≡ ok pks
    → (rest : List Pubkey) × (o ≡ ok rest) × (pk ∷ rest ≡ pks)
prepend_ok pk (ok rest) pks h = (rest, refl, ground (arith, h))
prepend_ok pk (err e) pks h = absurd (ground (arith, h))

Result-cases :
    (o : Result PubkeyError Pubkey)
    → ((pk : Pubkey) × (o ≡ ok pk)) ⊎ ((e : PubkeyError) × (o ≡ err e))
Result-cases (ok pk) = inl (pk, refl)
Result-cases (err e) = inr (e, refl)

strict_vaults_of-vaults_of :
    (base58 : Base58Decode) (parts : List Text) (pks : List Pubkey)
    → strict_vaults_of base58 parts ≡ ok pks
    → vaults_of base58 parts ≡ pks
unfolding strict_vaults_of
strict_vaults_of-vaults_of base58 [] pks h = ground (arith, h)
strict_vaults_of-vaults_of base58 (part ∷ parts) pks h = elim (Bool-cases (is_empty (trim part))) [
  | inl p ↦ ground (arith, p, h, strict_vaults_of-vaults_of base58 parts pks)
  | inr p ↦ elim (Result-cases (parse_wallet_pubkey base58 (trim part))) [
    | inl (pk, e) ↦
        let (rest, r, sum) =
          prepend_ok pk (strict_vaults_of base58 parts) pks (ground (arith, h, p, e)) in
        ground (arith, p, e, sum, strict_vaults_of-vaults_of base58 parts rest r)
    | inr (e', e) ↦ absurd (ground (arith, h, p, e))
  ]
]

non_empty_ok :
    (o : Result VaultListError (List Pubkey)) (pks : List Pubkey)
    → non_empty o ≡ ok pks
    → o ≡ ok pks
non_empty_ok (ok []) pks h = absurd (ground (arith, h))
non_empty_ok (ok (pk ∷ rest)) pks h = h
non_empty_ok (err e) pks h = absurd (ground (arith, h))

-- Where the strict parser accepts a text that is not blank, the lenient parser of the environment
-- reads the same vaults, in the same order, from a setting with that text.
pub parse_vault_list-parse_shred_watch_vaults_from_env :
    (base58 : Base58Decode) (env : Env) (raw : Text) (pks : List Pubkey)
    → env (codes "SHRED_WATCH_VAULTS") ≡ some raw
    → is_empty (trim raw) ≡ false
    → parse_vault_list base58 raw ≡ ok pks
    → parse_shred_watch_vaults_from_env base58 env ≡ pks
unfolding parse_vault_list parse_shred_watch_vaults_from_env
parse_vault_list-parse_shred_watch_vaults_from_env base58 env raw pks s b h =
    rw (parse_shred_watch_vaults_from_env, s, b)
      (strict_vaults_of-vaults_of base58 (split b',' raw) pks
        (non_empty_ok (strict_vaults_of base58 (split b',' raw)) pks h))
