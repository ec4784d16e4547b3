-- ===== src/Wallet/Store.antt =====
-- src/walletStore.ts: the keystore files of a directory.
use mathlib.Core.Path.{subst}
use Prim.Native.String.{◌++◌ as text_append, compare}
use Prim.Native.Nat.{Ordering}
use text.Mathlib.Text.{starts_with}
use proof_of_authority_block.Common.{
  ℕ, ◌≡◌, refl, ap, ◌∙◌, inl, inr, String, Bool, true, false, not, List, [], ◌∷◌, Option, none,
  some, ◌&&◌, ◌||◌, ◌==◌, ◌===◌, ===_self, eq_iff, leb, ltb, length, arith, if◌then◌else◌, Result,
  ok, err, ◌>>=◌, ◌>>◌, check, require, Bool-cases,
}
use proof_of_authority_block.Common.Dict.{Dict, lookup, contains, insert, erase, lookup-insert}
use proof_of_authority_block.Common.Sort.{sort}
use proof_of_authority_block.Json.{Value}
use proof_of_authority_block.Crypto.{NodeCrypto}
use proof_of_authority_block.Transaction.{codes, is_address}
use proof_of_authority_block.Keystore.{Keystore, KeystoreError, keystore_value, used_name}
use proof_of_authority_block.Wallet.{Wallet, from_keystore, export_keystore, to_lower_case}
use proof_of_authority_block.Wallet.Files.{IsKeystore, from_keystore_value}

-- The files of the directory by name; `none` is a file that is no JSON. A directory that does not
-- exist has no files.
abbrev pub Files : Type 0
Files = Dict (Option Value)

pub data StoreError : Type 0 where
  invalid_name no_wallet no_json already_exists bad_address : StoreError
  bad_keystore : KeystoreError → StoreError

-- [A-Za-z0-9_-]
abbrev pub is_name_code : ℕ → Bool
is_name_code ch =
    leb 65 ch && leb ch 90
    || leb 97 ch && leb ch 122
    || leb 48 ch && leb ch 57
    || ch == 95
    || ch == 45

abbrev pub all_name : List ℕ → Bool
all_name [] = true
all_name (ch ∷ chs) = is_name_code ch && all_name chs

-- NAME_RE: /^[A-Za-z0-9_-]+$/
unfoldable pub is_name : String → Bool
is_name s = ltb 0 (length (codes s)) && all_name (codes s)

-- `path`, less the directory: throws on a name that is not allowed.
unfoldable pub path : String → Result StoreError String
path name = do check (is_name name) invalid_name; ok (text_append name ".json")

-- `exists`
unfoldable pub exists_wallet : Files → String → Result StoreError Bool
exists_wallet files name = do file ← path name; ok (contains file files)

-- A file name that ends in ".json", less that ending.
unfoldable pub strip_json : String → Option String
strip_json String.[] = none
strip_json (String.◌∷◌ ch s) =
    let rest = strip_json s in
    if String.◌∷◌ ch s === ".json"
    then some ""
    else elim rest [ none ↦ none | some r ↦ some (String.◌∷◌ ch r) ]

abbrev pub names_of : Files → List String
unfolding strip_json
names_of [] = []
names_of ((file, v) ∷ files) = elim (strip_json file) [
  | none ↦ names_of files
  | some name ↦ if is_name name then name ∷ names_of files else names_of files
]

abbrev pub text_le : String → String → Bool
text_le a b = elim (compare a b) [ Ordering.gt ↦ false | _ ↦ true ]

-- `list`
unfoldable pub list_wallets : Files → List String
list_wallets files = sort text_le (names_of files)

abbrev pub as_store_result : Result KeystoreError Wallet → Result StoreError Wallet
as_store_result (ok w) = ok w
as_store_result (err e) = err (bad_keystore e)

-- `load`
unfoldable pub load_wallet : NodeCrypto → Files → String → Result StoreError Wallet
load_wallet c files name = do
  file ← path name
  content ← require (lookup file files) no_wallet
  v ← require content no_json
  as_store_result (from_keystore c v)

-- `renameSync`
abbrev pub rename : String → String → Files → Files
rename from to files = elim (lookup from files) [
  | none ↦ files
  | some content ↦ insert to content (erase from files)
]

-- `save`: the file is written under a temporary name and renamed.
unfoldable pub save_wallet : Files → String → Wallet → Bool → Result StoreError Files
save_wallet files name w overwrite = do
  file ← path name
  check (not (contains file files && not overwrite)) already_exists
  let tmp = text_append file ".tmp"
  let written = insert tmp (some (keystore_value (export_keystore w (some name)))) files
  ok (rename tmp file written)

-- `delete`
unfoldable pub delete_wallet : Files → String → Result StoreError (Files × Bool)
delete_wallet files name = do
  file ← path name
  ok (if contains file files then (erase file files, true) else (files, false))

-- `resolveAddress`; `toLowerCase` as far as an address can tell.
unfoldable pub resolve_address : NodeCrypto → Files → String → Result StoreError String
resolve_address c files name_or_address =
    let lower = to_lower_case name_or_address in
    if starts_with name_or_address "0x"
    then (check (is_address lower) bad_address >> ok lower)
    else (load_wallet c files name_or_address >>= λ w. ok w.ks.address)

name_given : (name : String) → is_name name ≡ true → (name === "") ≡ false
unfolding is_name
name_given name h = elim (Bool-cases (name === "")) [
  | inr other ↦ other
  | inl empty ↦
      let same : name ≡ "" = (eq_iff name "").0 empty in
      absurd (ground (arith, subst (λ (s : String). is_name s ≡ true) same h))
]

lookup-rename :
    (from to : String) (content : Option Value) (files : Files)
    → lookup to (rename from to (insert from content files)) ≡ some content
lookup-rename from to content files =
    let written : lookup from (insert from content files) ≡ some content =
      ground (arith, lookup-insert from from content files, ===_self from) in
    rw (rename, written)
      (ground
        (arith, lookup-insert to to content (erase from (insert from content files)), ===_self to))

-- What `save` writes is what `load` reads.
load_stored :
    (c : NodeCrypto) (files : Files) (name : String) (w : Wallet)
    → is_name name ≡ true
    → IsKeystore c w.ks
    → lookup (text_append name ".json") files
      ≡ some (some (keystore_value (export_keystore w (some name))))
    → load_wallet c files name
      ≡ ok (record { keys = none; ks = record (w.ks) { name = some name } })
unfolding load_wallet path export_keystore
load_stored c files name w named k stored =
    let given = name_given name named in
    let used : used_name (some name) ≡ some name = rw given refl in
    let ks' : Keystore = record (w.ks) { name = some name } in
    let kept : from_keystore c (keystore_value ks') ≡ ok (record { keys = none; ks = ks' }) =
      from_keystore_value c ks' (record { named = used; owner = k.owner }) in
    let same : keystore_value (export_keystore w (some name)) ≡ keystore_value ks' =
      ap (λ (n : Option String). keystore_value (record (w.ks) { name = n })) used in
    let found = stored ∙ ap (λ (v : Value). some (some v)) same in
    rw (load_wallet, path, named, found, kept) refl

-- If a wallet's keystore has the address of its key and no empty name, and `save` writes it under a
-- name, then `load` under this name gives the same wallet, locked, with this name.
pub load-save_wallet :
    (c : NodeCrypto) (files files' : Files) (name : String) (w : Wallet) (overwrite : Bool)
    → IsKeystore c w.ks
    → save_wallet files name w overwrite ≡ ok files'
    → load_wallet c files' name
      ≡ ok (record { keys = none; ks = record (w.ks) { name = some name } })
unfolding save_wallet path
load-save_wallet c files files' name w overwrite k h =
    let file = text_append name ".json" in
    let content = some (keystore_value (export_keystore w (some name))) in
    elim (Bool-cases (is_name name)) [
      | inr bad ↦ absurd (ground arith)
      | inl named ↦ elim (Bool-cases (contains file files && not overwrite)) [
        | inl there_already ↦ absurd (ground arith)
        | inr free ↦
            let tmp = text_append file ".tmp" in
            let written : rename tmp file (insert tmp content files) ≡ files' = ground arith in
            load_stored c files' name w named k (
              subst (λ (fs : Files). lookup file fs ≡ some content) written
                (lookup-rename tmp file content files))
      ]
    ]
