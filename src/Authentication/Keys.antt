-- ===== src/Authentication/Keys.antt =====
-- What the loops over keys make of a list of documents.
use corridor.Prelude.{
  ◌≡◌, ◌≢◌, refl, sym, ◌∙◌, ap, List, [], ◌∷◌, ◌++◌, Option, none, some, true, false, In, ok, err,
  arith, Bool-cases, inl, inr, ok-injective, some-injective, refuse-eq-ok, ◌⊎◌,
}
use corridor.Prelude.Text.{Text, ◌==◌, eq_iff}
use corridor.Prelude.Dict.{Dict, lookup, insert, lookup-insert, lookup-insert_self}
use corridor.Authentication.{HashedApiKeyDetails, ApiKeyDoc, panics, is_short, details, load_docs}

-- A document of the list that holds the key's details.
pub record Source (docs : List (Option ApiKeyDoc)) (key : Text) (d : HashedApiKeyDetails)
    : Type 0 where
  pub doc : ApiKeyDoc
  pub present : In (some doc) docs
  pub named : doc.lookup_key ≡ key
  pub detailed : details doc ≡ d

Source-later :
    (o : Option ApiKeyDoc) (docs : List (Option ApiKeyDoc)) (key : Text) (d : HashedApiKeyDetails)
    → Source docs key d
    → Source (o ∷ docs) key d
Source-later o docs key d s = record {
  doc = s.doc;
  present = inr s.present;
  named = s.named;
  detailed = s.detailed;
}

-- A key that is in the map afterwards was there before or stands in a document.
pub load_docs-Source :
    (docs : List (Option ApiKeyDoc)) (keys keys' : Dict HashedApiKeyDetails) (key : Text)
    (d : HashedApiKeyDetails)
    → load_docs docs keys ≡ ok keys'
    → lookup key keys' ≡ some d
    → (lookup key keys ≡ some d) ⊎ Source docs key d
unfolding load_docs
load_docs-Source [] keys keys' key d done found = inl (ap (lookup key) (ok-injective done) ∙ found)
load_docs-Source (none ∷ docs) keys keys' key d done found =
    elim (load_docs-Source docs keys keys' key d done found) [
      | inl before ↦ inl before
      | inr s ↦ inr (Source-later none docs key d s)
    ]
load_docs-Source (some doc ∷ docs) keys keys' key d done found =
    let (long, rest) = refuse-eq-ok (is_short doc.lookup_key) panics _ done in
    elim (load_docs-Source docs (insert doc.lookup_key (details doc) keys) keys' key d rest found) [
      | inr s ↦ inr (Source-later (some doc) docs key d s)
      | inl inserted ↦ elim (Bool-cases (doc.lookup_key == key)) [
        | inl same ↦
            let e =
              sym (lookup-insert doc.lookup_key key (details doc) keys ∙ rw same refl) ∙ inserted in
            inr (record {
              doc = doc;
              present = inl refl;
              named = (eq_iff doc.lookup_key key).0 same;
              detailed = some-injective e;
            })
        | inr other ↦
            inl
              (sym (lookup-insert doc.lookup_key key (details doc) keys ∙ rw other refl) ∙ inserted)
      ]
    ]

-- No document of the list is for the key.
abbrev pub Lacks : Text → List (Option ApiKeyDoc) → Type 0
Lacks key [] = Unit
Lacks key (none ∷ docs) = Lacks key docs
Lacks key (some doc ∷ docs) = (doc.lookup_key ≢ key) × Lacks key docs

load_docs-Lacks :
    (docs : List (Option ApiKeyDoc)) (keys keys' : Dict HashedApiKeyDetails) (key : Text)
    → load_docs docs keys ≡ ok keys'
    → Lacks key docs
    → lookup key keys' ≡ lookup key keys
unfolding load_docs
load_docs-Lacks [] keys keys' key done lacks = ap (lookup key) (sym (ok-injective done))
load_docs-Lacks (none ∷ docs) keys keys' key done lacks =
    load_docs-Lacks docs keys keys' key done lacks
load_docs-Lacks (some doc ∷ docs) keys keys' key done (differs, lacks) =
    let (long, rest) = refuse-eq-ok (is_short doc.lookup_key) panics _ done in
    let apart : (doc.lookup_key == key) ≡ false = ground (arith, eq_iff doc.lookup_key key) in
    load_docs-Lacks docs _ keys' key rest lacks
    ∙ lookup-insert doc.lookup_key key (details doc) keys
    ∙ rw apart refl

-- The last document for a key is the one that is kept.
pub load_docs_last :
    (before after : List (Option ApiKeyDoc)) (doc : ApiKeyDoc)
    (keys keys' : Dict HashedApiKeyDetails)
    → load_docs (before ++ (some doc ∷ after)) keys ≡ ok keys'
    → Lacks doc.lookup_key after
    → lookup doc.lookup_key keys' ≡ some (details doc)
unfolding load_docs
load_docs_last [] after doc keys keys' done lacks =
    let (long, rest) = refuse-eq-ok (is_short doc.lookup_key) panics _ done in
    load_docs-Lacks after _ keys' doc.lookup_key rest lacks
    ∙ lookup-insert_self doc.lookup_key (details doc) keys
load_docs_last (none ∷ before) after doc keys keys' done lacks =
    load_docs_last before after doc keys keys' done lacks
load_docs_last (some b ∷ before) after doc keys keys' done lacks =
    let (long, rest) = refuse-eq-ok (is_short b.lookup_key) panics _ done in
    load_docs_last before after doc _ keys' rest lacks

-- A short lookup key anywhere ends the loop in a panic.
pub load_docs-panics :
    (docs : List (Option ApiKeyDoc)) (keys : Dict HashedApiKeyDetails) (doc : ApiKeyDoc)
    → In (some doc) docs
    → is_short doc.lookup_key ≡ true
    → load_docs docs keys ≡ err panics
unfolding load_docs
load_docs-panics [] keys doc m short = absurd m
load_docs-panics (none ∷ docs) keys doc (inl e) short = absurd (cc)
load_docs-panics (none ∷ docs) keys doc (inr m) short = load_docs-panics docs keys doc m short
load_docs-panics (some b ∷ docs) keys doc (inr m) short =
    elim (Bool-cases (is_short b.lookup_key)) [
      | inl too ↦ rw too refl
      | inr long ↦ rw long (load_docs-panics docs _ doc m short)
    ]
load_docs-panics (some b ∷ docs) keys doc (inl e) short =
    let too : is_short b.lookup_key ≡ true =
      sym (ap (λ (d : ApiKeyDoc). is_short d.lookup_key) (some-injective e)) ∙ short in
    rw too refl
