-- ===== src/Auth/Token/Genuine.antt =====
-- What a token is that the check accepts.
use mls_ds.Prelude.{
  Any, ℕ, String, ◌≡◌, refl, subst, ap, ◌∙◌, ◌⊎◌, inl, inr, Bool, true, false, not, Option, none,
  some, List, [], ◌∷◌, find, length, str_eq, eq_iff, ◌==◌, Bool-cases,
}
use mls_ds.Prelude.Int.{pos, leb_ℤ}
use mls_ds.Prelude.Strings.{split_at, rsplit_first}
use mls_ds.Prelude.Results.{Result, ok, err, map_err, OnOk, OnOk-bind, OnOk-then, ◌>>=◌}
use mls_ds.Did.{canonical_did}
use mls_ds.Auth.Types.{
  AuthError, invalid_token, missing_verification_method, token_expired, invalid_signature, refused,
  AtProtoClaims, JwtHeader, VerificationMethod, DidDocument,
}
use mls_ds.Auth.Token.{
  Scheme, Jose, Checked, or_invalid, present, unless, kid_matches, select_among, atproto_or_first,
  first_of, select_verification_method, p256_key, k256_key, Token, signing_input, parts_of,
  check_signature, method_for, check_alg, check_audience, verify_jwt,
}

or_invalid_ok :
    {A : Type 0} (text : String) (r : Result String A) (a : A) → or_invalid text r ≡ ok a → r ≡ ok a
or_invalid_ok text (ok b) a h = cc
or_invalid_ok text (err e) a h = cc

present_ok : {A : Type 0} (e : AuthError) (o : Option A) (a : A) → present e o ≡ ok a → o ≡ some a
present_ok e none a h = cc
present_ok e (some b) a h = cc

unless-OnOk : (b : Bool) (e : AuthError) (X : Type 0) → (b ≡ false → X) → OnOk (λ _. X) (unless b e)
unless-OnOk true e X h = tt
unless-OnOk false e X h = h refl

proved : {A : Type 0} {X : Type 0} (r : Checked A) (a : A) → OnOk (λ _. X) r → r ≡ ok a → X
proved (ok b) a h e = h
proved (err x) a h e = absurd (cc)

weaken : {A : Type 0} {X Y : Type 0} (r : Checked A) → (X → Y) → OnOk (λ _. X) r → OnOk (λ _. Y) r
weaken (ok a) f h = f h
weaken (err e) f h = tt

affirmed : (b : Bool) → not b ≡ false → b ≡ true
affirmed true h = refl
affirmed false h = cc

-- The method is one of the document's, and the one that the token names where it names one.
abbrev pub HasKid : Option String → VerificationMethod → Type 0
HasKid none vm = Unit
HasKid (some kid) vm = kid_matches vm.id kid ≡ true

find_is :
    (p : VerificationMethod → Bool) (vms : List VerificationMethod) (vm : VerificationMethod)
    → find p vms ≡ some vm
    → Any (λ m. m ≡ vm) vms × (p vm ≡ true)
unfolding find
find_is p [] vm h = cc
find_is p (m ∷ ms) vm h = elim (Bool-cases (p m)) [
  | inl t ↦
      let k : some m ≡ some vm = (rw t at h) in
      let e : m ≡ vm = cc in (inl e, subst (λ x. p x ≡ true) e t)
  | inr f ↦ let k : find p ms ≡ some vm = (rw f at h) in let r = find_is p ms vm k in (inr r.0, r.1)
]

first_in :
    (vms : List VerificationMethod) (vm : VerificationMethod)
    → first_of vms ≡ ok vm
    → Any (λ m. m ≡ vm) vms
first_in [] vm h = cc
first_in (m ∷ ms) vm h = let e : m ≡ vm = cc in inl e

selected :
    (vms : List VerificationMethod) (kid : Option String) (vm : VerificationMethod)
    → select_among vms kid ≡ ok vm
    → Any (λ m. m ≡ vm) vms × HasKid kid vm
selected vms (some kid) vm h =
    find_is (λ m. kid_matches m.id kid) vms vm
      (present_ok _ (find (λ m. kid_matches m.id kid) vms) vm h)
selected vms none vm h =
    (unnamed (find (λ m. str_eq (rsplit_first b'#' m.id) "atproto") vms) refl h, tt)
  where
    unnamed :
        (o : Option VerificationMethod)
        → find (λ m. str_eq (rsplit_first b'#' m.id) "atproto") vms ≡ o
        → atproto_or_first vms o ≡ ok vm
        → Any (λ m. m ≡ vm) vms
    unnamed none e k = first_in vms vm k
    unnamed (some m) e k = let same : m ≡ vm = cc in (find_is _ vms vm (e ∙ ap some same)).0

selected_of :
    (doc : DidDocument) (kid : Option String) (vm : VerificationMethod)
    → select_verification_method doc kid ≡ ok vm
    → Any (λ m. m ≡ vm) doc.verification_method × HasKid kid vm
unfolding select_verification_method
selected_of doc kid vm h = elim (Bool-cases (length doc.verification_method == 0)) [
  | inl t ↦ let n : err (refused missing_verification_method) ≡ ok vm = (rw t at h) in cc
  | inr f ↦ selected doc.verification_method kid vm (rw f at h)
]

module _ (jose : Jose) where
  -- The token's third part is a signature of its first two under the key.
  pub record IsSigned (scheme : Scheme) (t : Token jose) (key : scheme.Key) : Type 0 where
    pub bytes : List ℕ
    pub signature : scheme.Signature
    pub decoded : jose.decode t.signature_part ≡ ok bytes
    pub parsed : scheme.from_slice bytes ≡ some signature
    pub verified : scheme.verify key (signing_input jose t) signature ≡ true

  -- A signature under a P-256 or a secp256k1 key of the method, as the header says.
  abbrev pub IsSignedBy : Token jose → String → VerificationMethod → Type 0
  IsSignedBy t alg vm =
      ((alg ≡ "ES256")
        × ((key : jose.p256.Key) × ((p256_key jose vm ≡ ok key) × IsSigned jose.p256 t key)))
      ⊎ ((alg ≡ "ES256K")
          × ((key : jose.k256.Key) × ((k256_key jose vm ≡ ok key) × IsSigned jose.k256 t key)))

  signature_ok :
      (scheme : Scheme) (text : String) (t : Token jose) (key : scheme.Key)
      → OnOk (λ _. IsSigned scheme t key) (check_signature jose scheme text t key)
  signature_ok scheme text t key =
      OnOk-bind (λ _. IsSigned scheme t key)
        (or_invalid "Invalid b64 sig: " (jose.decode t.signature_part)) _
        (λ bytes e1.
          OnOk-bind (λ _. IsSigned scheme t key)
            (present (invalid_token text) (scheme.from_slice bytes)) _
            (λ sig e2.
              unless-OnOk (not (scheme.verify key (signing_input jose t) sig)) invalid_signature
                (IsSigned scheme t key)
                (λ v. record {
                  bytes = bytes;
                  signature = sig;
                  decoded = or_invalid_ok _ (jose.decode t.signature_part) bytes e1;
                  parsed = present_ok _ (scheme.from_slice bytes) sig e2;
                  verified = affirmed (scheme.verify key (signing_input jose t) sig) v;
                })))

  module _ (resolve_did : String → Result AuthError DidDocument) where
    -- The document of the issuer has the key.
    pub record IsVouched (t : Token jose) (header : JwtHeader) (claims : AtProtoClaims)
        : Type 0 where
      pub document : DidDocument
      pub method : VerificationMethod
      pub resolved : resolve_did (canonical_did claims.iss) ≡ ok document
      pub listed : Any (λ m. m ≡ method) document.verification_method
      pub named : HasKid header.kid method
      pub signed : IsSignedBy t header.alg method

    abbrev Chosen : JwtHeader → AtProtoClaims → VerificationMethod → Type 0
    Chosen header claims vm =
        (document : DidDocument) × ((resolve_did (canonical_did claims.iss) ≡ ok document)
          × (Any (λ m. m ≡ vm) document.verification_method × HasKid header.kid vm))

    resolved_ok :
        (r : Result AuthError DidDocument) (doc : DidDocument)
        → map_err refused r ≡ ok doc
        → r ≡ ok doc
    resolved_ok (ok d) doc h = cc
    resolved_ok (err e) doc h = cc

    chosen :
        (claims : AtProtoClaims) (header : JwtHeader) (vm : VerificationMethod)
        → method_for jose resolve_did claims header ≡ ok vm
        → Chosen header claims vm
    chosen claims header vm h =
        from_document (map_err refused (resolve_did (canonical_did claims.iss))) refl h
      where
        from_document :
            (r : Checked DidDocument)
            → map_err refused (resolve_did (canonical_did claims.iss)) ≡ r
            → (r >>= λ doc. select_verification_method doc header.kid) ≡ ok vm
            → Chosen header claims vm
        from_document (err e) p k = cc
        from_document (ok doc) p k = (
          doc,
          (
            resolved_ok (resolve_did (canonical_did claims.iss)) doc p,
            selected_of doc header.kid vm k,
          ),
        )

    vouched :
        (t : Token jose) (header : JwtHeader) (claims : AtProtoClaims) (vm : VerificationMethod)
        → Chosen header claims vm
        → IsSignedBy t header.alg vm
        → IsVouched t header claims
    vouched t header claims vm (document, (resolved, (listed, named))) signed = record {
      document = document;
      method = vm;
      resolved = resolved;
      listed = listed;
      named = named;
      signed = signed;
    }

    alg_ok :
        (t : Token jose) (header : JwtHeader) (claims : AtProtoClaims)
        → OnOk (λ _. IsVouched t header claims) (check_alg jose resolve_did t header claims)
    alg_ok t header claims = elim (Bool-cases (str_eq header.alg "ES256")) [
      | inl a ↦ rw a (
          OnOk-bind (λ _. IsVouched t header claims) (method_for jose resolve_did claims header) _
            (λ vm e1.
              OnOk-bind (λ _. IsVouched t header claims) (p256_key jose vm) _
                (λ key e2.
                  weaken (check_signature jose jose.p256 "invalid ES256 signature" t key)
                    (λ s.
                      vouched t header claims vm (chosen claims header vm e1)
                        (inl ((eq_iff header.alg "ES256").0 a, (key, (e2, s)))))
                    (signature_ok jose.p256 "invalid ES256 signature" t key))))
      | inr f ↦ rw f (elim (Bool-cases (str_eq header.alg "ES256K")) [
        | inl a ↦ rw a (
            OnOk-bind (λ _. IsVouched t header claims) (method_for jose resolve_did claims header) _
              (λ vm e1.
                OnOk-bind (λ _. IsVouched t header claims) (k256_key jose vm) _
                  (λ key e2.
                    weaken (check_signature jose jose.k256 "invalid ES256K signature" t key)
                      (λ s.
                        vouched t header claims vm (chosen claims header vm e1)
                          (inr ((eq_iff header.alg "ES256K").0 a, (key, (e2, s)))))
                      (signature_ok jose.k256 "invalid ES256K signature" t key))))
        | inr g ↦ rw g tt
      ])
    ]

    abbrev pub IsFor : Option String → AtProtoClaims → Type 0
    IsFor none claims = Unit
    IsFor (some service_did) claims = claims.aud ≡ service_did

    -- The token's parts, what they say, and who vouches for it.
    pub record IsGenuine (service_did : Option String) (now : ℕ) (text : String)
        (claims : AtProtoClaims) : Type 0 where
      pub token : Token jose
      pub header : JwtHeader
      pub header_bytes : List ℕ
      pub payload_bytes : List ℕ
      pub split : parts_of jose (split_at b'.' text) ≡ ok token
      pub header_part : jose.decode token.header_part ≡ ok header_bytes
      pub payload_part : jose.decode token.payload_part ≡ ok payload_bytes
      pub header_json : jose.header header_bytes ≡ ok header
      pub claims_json : jose.claims payload_bytes ≡ ok claims
      pub unexpired : leb_ℤ (pos now) claims.exp ≡ true
      pub audience : IsFor service_did claims
      pub vouched_for : IsVouched token header claims

    audience_ok :
        (service_did : Option String) (claims : AtProtoClaims)
        → OnOk (λ _. IsFor service_did claims) (check_audience jose resolve_did service_did claims)
    audience_ok none claims = tt
    audience_ok (some service_did) claims =
        unless-OnOk (not (str_eq claims.aud service_did)) _ (claims.aud ≡ service_did)
          (λ h. (eq_iff claims.aud service_did).0 (affirmed (str_eq claims.aud service_did) h))

    genuine :
        (service_did : Option String) (now : ℕ) (text : String)
        → OnOk (IsGenuine service_did now text) (verify_jwt jose resolve_did service_did now text)
    unfolding verify_jwt
    genuine service_did now text =
        let G = IsGenuine service_did now text in
        OnOk-bind G (parts_of jose (split_at b'.' text)) _ (λ t split.
          OnOk-bind G (or_invalid "Invalid base64 header: " (jose.decode t.header_part)) _ (λ hb e1.
            OnOk-bind G (or_invalid "Invalid base64 payload: " (jose.decode t.payload_part)) _
              (λ pb e2.
                OnOk-bind G (or_invalid "Invalid header JSON: " (jose.header hb)) _ (λ header e3.
                  OnOk-bind G (or_invalid "Invalid claims JSON: " (jose.claims pb)) _ (λ claims e4.
                    OnOk-then G (unless (not (leb_ℤ (pos now) claims.exp)) token_expired) _ (λ e5.
                      OnOk-then G (check_audience jose resolve_did service_did claims) _ (λ e6.
                        OnOk-then G (check_alg jose resolve_did t header claims) (ok claims) (λ e7.
                          record {
                            token = t;
                            header = header;
                            header_bytes = hb;
                            payload_bytes = pb;
                            split = split;
                            header_part = or_invalid_ok _ (jose.decode t.header_part) hb e1;
                            payload_part = or_invalid_ok _ (jose.decode t.payload_part) pb e2;
                            header_json = or_invalid_ok _ (jose.header hb) header e3;
                            claims_json = or_invalid_ok _ (jose.claims pb) claims e4;
                            unexpired =
                                proved (unless (not (leb_ℤ (pos now) claims.exp)) token_expired) tt
                                  (unless-OnOk (not (leb_ℤ (pos now) claims.exp)) token_expired
                                    (leb_ℤ (pos now) claims.exp ≡ true)
                                    (affirmed (leb_ℤ (pos now) claims.exp)))
                                  e5;
                            audience =
                                proved (check_audience jose resolve_did service_did claims) tt
                                  (audience_ok service_did claims) e6;
                            vouched_for =
                                proved (check_alg jose resolve_did t header claims) tt
                                  (alg_ok t header claims) e7;
                          }))))))))

    -- A token that is accepted has three parts; its claims are those of the second, are not expired and
    -- name this service where it is configured; and its third part is a signature of the first two,
    -- under a key that the issuer's DID document lists and that the header names where it names one.
    pub verify_jwt-IsGenuine :
        (service_did : Option String) (now : ℕ) (text : String) (claims : AtProtoClaims)
        → verify_jwt jose resolve_did service_did now text ≡ ok claims
        → IsGenuine service_did now text claims
    verify_jwt-IsGenuine service_did now text claims h =
        subst (OnOk (IsGenuine service_did now text)) h (genuine service_did now text)
