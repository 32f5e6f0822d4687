-- ===== src/Main/Command.antt =====
-- app/main.go: the subcommand `keygen`. SHA-256, and bcrypt with the salt
-- of one call, are parameters. A line is what one call of the package `fmt` prints.
use corridor.Prelude.{
  ℕ, ◌≡◌, ◌≢◌, refl, List, [], ◌∷◌, ◌++◌, Option, none, some, Option-cases, Bool-cases, inl, inr,
  Result, ok, err, if◌then◌else◌, sym, subst, ◌∙◌, ◌⊎◌,
}
use corridor.Prelude.Text.{Text, text, ◌==◌, eq_iff}
use corridor.Keygen.{KeygenError, empty_key, hash_failed, generate_api_key_hashes}

-- The end of the program: its status, and the lines on standard output and on standard error.
pub record Finished : Type 0 where
  pub status : ℕ
  pub output : List Text
  pub errors : List Text

abbrev pub usage : List Text
usage =
    text "Usage: corridor keygen \"<plaintext_api_key>\"\n"
    ∷ text "Ensure the API key is quoted if it contains spaces or special characters.\n"
    ∷ []

abbrev pub error_text : KeygenError → Text → Text
error_text empty_key reason = text "plaintext API key cannot be empty"
error_text hash_failed reason = text "failed to generate bcrypt hash: " ++ reason

-- What the subcommand prints.
abbrev pub report : Text → Text → Text → List Text
report plaintext_key lookup_key bcrypt_hash =
    text "--- Generated API Key Details ---\n"
    ∷ (text "Plaintext API Key: " ++ (plaintext_key ++ text "\n"))
    ∷ (text "  Lookup Key (SHA256 Hex for 'lookup_key' field): " ++ (lookup_key ++ text "\n"))
    ∷ (text "  Hashed Value (bcrypt for 'hashed_value' field): " ++ (bcrypt_hash ++ text "\n\n"))
    ∷ text "Instructions:\n"
    ∷ text "1. Provide the 'Plaintext API Key' to your client. Corridor does NOT store this.\n"
    ∷ text
        "2. Store the 'Lookup Key' and 'Hashed Value' in your Corridor configuration (e.g., config.yaml or MongoDB).\n"
    ∷ []

-- The subcommand on the hashes of the key, or on their error.
abbrev pub keygen_end : Text → Text → Result KeygenError (Text × Text) → Finished
keygen_end reason key (ok (lookup_key, bcrypt_hash)) = record {
  status = 0;
  output = report key lookup_key bcrypt_hash;
  errors = [];
}
keygen_end reason key (err e) = record {
  status = 1;
  output = [];
  errors = (text "Error generating key hashes: " ++ (error_text e reason ++ text "\n")) ∷ [];
}

module _ (sha256_hex : Text → Text) (bcrypt_generate : Text → Option Text) (reason : Text) where
  abbrev pub keygen : List Text → Finished
  keygen (key ∷ []) = keygen_end reason key (generate_api_key_hashes sha256_hex bcrypt_generate key)
  keygen _ = record { status = 1; output = []; errors = usage }

  -- The start of `main` on the arguments of the program, the first one its name; `none` where it
  -- goes on to the gateway.
  unfoldable pub command : List Text → Option Finished
  command (name ∷ subcommand ∷ arguments) =
      if subcommand == text "keygen" then some (keygen arguments) else none
  command _ = none

  -- Arguments that name one key, which is not empty and which bcrypt takes.
  pub record Given (args : List Text) (key hash : Text) : Type 0 where
    pub name : Text
    pub are : args ≡ name ∷ text "keygen" ∷ key ∷ []
    pub some_key : key ≢ []
    pub taken : bcrypt_generate key ≡ some hash

  -- A success with the key, its lookup key and its hash printed, or a failure that prints nothing
  -- on standard output and says why.
  abbrev pub Told : List Text → Option Finished → Type 0
  Told args none = (name : Text) (arguments : List Text) → args ≢ name ∷ text "keygen" ∷ arguments
  Told args (some f) =
      ((key : Text) × (hash : Text) × Given args key hash
        × (f ≡ record { status = 0; output = report key (sha256_hex key) hash; errors = [] }))
      ⊎ (((key hash : Text) → Given args key hash → ⊥)
          × (f.status ≡ 1)
          × (f.output ≡ [])
          × (f.errors ≢ []))

  same_key :
      (args : List Text) (name key k hash : Text)
      → args ≡ name ∷ text "keygen" ∷ key ∷ []
      → Given args k hash
      → key ≡ k
  same_key args name key k hash here given = let there = given.are in cc

  one_key-Told :
      (name key : Text) → Told (name ∷ text "keygen" ∷ key ∷ []) (some (keygen (key ∷ [])))
  unfolding generate_api_key_hashes
  one_key-Told name key = elim (Bool-cases (key == [])) [
    | inl blank ↦
        let none_given = (eq_iff key []).0 blank in
        let ended : generate_api_key_hashes sha256_hex bcrypt_generate key ≡ err empty_key =
          rw blank refl in
        rw ended (
          inr (
            (λ k h g. g.some_key (sym (same_key _ name key k h refl g) ∙ none_given)),
            refl,
            refl,
            λ e. cc,
          ))
    | inr given ↦ elim (Option-cases (bcrypt_generate key)) [
      | inl refused ↦
          let ended : generate_api_key_hashes sha256_hex bcrypt_generate key ≡ err hash_failed =
            rw (given, refused) refl in
          rw ended (
            inr (
              (λ k h g.
                  let same = same_key _ name key k h refl g in let taken = g.taken in absurd (cc)),
              refl,
              refl,
              λ e. cc,
            ))
      | inr (hash, taken) ↦
          let ended : generate_api_key_hashes sha256_hex bcrypt_generate key
              ≡ ok (sha256_hex key, hash) =
            rw (given, taken) refl in
          let some_key : key ≢ [] = λ e. let blank = (eq_iff key []).1 e in absurd (cc) in
          rw ended (
            inl (
              key,
              hash,
              record { name = name; are = refl; some_key = some_key; taken = taken },
              refl,
            ))
    ]
  ]

  keygen-Told :
      (name : Text) (arguments : List Text)
      → Told (name ∷ text "keygen" ∷ arguments) (some (keygen arguments))
  keygen-Told name [] = inr ((λ k h g. let are = g.are in cc), refl, refl, λ e. cc)
  keygen-Told name (key ∷ []) = one_key-Told name key
  keygen-Told name (key ∷ other ∷ rest) =
      inr ((λ k h g. let are = g.are in cc), refl, refl, λ e. cc)

  -- However the program is called, the subcommand ends it just when the second argument is
  -- `keygen`: with status 0 and the three values printed if one key follows that is not empty and
  -- that bcrypt takes, and otherwise with status 1, nothing on standard output and an error.
  pub command-Told : (args : List Text) → Told args (command args)
  unfolding command
  command-Told [] = λ name arguments e. cc
  command-Told (name ∷ []) = λ n arguments e. cc
  command-Told (name ∷ subcommand ∷ arguments) = elim (Bool-cases (subcommand == text "keygen")) [
    | inl called ↦
        let same = (eq_iff subcommand (text "keygen")).0 called in
        rw called (
          subst (λ c. Told (name ∷ c ∷ arguments) (some (keygen arguments))) (sym same)
            (keygen-Told name arguments))
    | inr other ↦ rw other (λ n rest e.
        let same : subcommand ≡ text "keygen" = cc in
        let called = (eq_iff subcommand (text "keygen")).1 same in absurd (cc))
  ]
