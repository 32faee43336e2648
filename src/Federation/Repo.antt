-- ===== src/Federation/Repo.antt =====
-- federation/resolver.rs: how the DS of a user is looked up in the user's repository. `Json` is the
-- packages `serde_json` and `urlencoding`, `Web` what the network is during one call.
pub mod Example
use Prim.Native.String.{◌++◌}
use mls_ds.Prelude.{
  ℕ, String, ◌≡◌, Bool, ◌&&◌, Option, none, some, List, [], ◌∷◌, ltb, leb, if◌then◌else◌,
}
use mls_ds.Prelude.Strings.{ends_with}
use mls_ds.Prelude.Results.{Result, ok, err, ok_or, map_err, ◌>>=◌, ◌>>◌}
use mls_ds.Federation.Endpoint.{strip_prefix, slashes}
use mls_ds.Federation.Url.{
  Net, FederationError, resolution_failed, Reason, http_failed, invalid_json, did_http_error,
  invalid_did_json, unsupported_method, pds_status, did_status, no_value, no_delivery_service,
  no_services, no_pds, ensure, validate_remote_url,
}

pub record DsEndpoint : Type 0 where
  pub did : String
  pub endpoint : String
  pub supported_cipher_suites : Option (List String)

pub record Json : Type 1 where
  pub Value : Type 0
  pub get : Value → String → Option Value
  pub as_str : Value → Option String
  pub as_array : Value → Option (List Value)
  -- `to_string` and `from_str` of a list of texts, and `urlencoding::encode`
  pub to_string : List String → Option String
  pub from_str : String → Option (List String)
  pub encode : String → String
  pub from_str-to_string :
      (l : List String) → (text : String) × (to_string l ≡ some text) × (from_str text ≡ some l)

abbrev pub and_then : {A B : Type 0} → Option A → (A → Option B) → Option B
and_then none f = none
and_then (some a) f = f a

abbrev pub or_empty : Option String → String
or_empty none = ""
or_empty (some s) = s

abbrev pub is_success : ℕ → Bool
is_success status = leb 200 status && ltb status 300

module _ (json : Json) where
  pub record Response : Type 0 where
    pub status : ℕ
    pub body : Result String json.Value

  pub record Web : Type 0 where
    pub net : Net
    -- A GET with the client's time limit; `err` is the text of its error.
    pub send : String → Result String Response

  -- `filter_map` of `as_str`
  abbrev pub add_text : Option String → List String → List String
  add_text none texts = texts
  add_text (some text) texts = text ∷ texts

  unfoldable pub texts_of : List json.Value → List String
  texts_of [] = []
  texts_of (v ∷ vs) = add_text (json.as_str v) (texts_of vs)

  abbrev pub text_at : json.Value → String → Option String
  text_at v name = and_then (json.get v name) json.as_str

  abbrev pub list_at : json.Value → String → Option (List json.Value)
  list_at v name = and_then (json.get v name) json.as_array

  abbrev pub is_pds : json.Value → Bool
  is_pds svc = ends_with (or_empty (text_at svc "id")) "#atproto_pds"

  -- A request, its status and its body, each with the reason that the caller gives.
  abbrev pub body_of :
      String
      → (String → Reason)
      → (ℕ → Reason)
      → (String → Reason)
      → Result String Response
      → Result FederationError json.Value
  body_of did unsent status unread (err e) = err (resolution_failed did (unsent e))
  body_of did unsent status unread (ok resp) = do
    ensure (is_success resp.status) (resolution_failed did (status resp.status))
    map_err (λ e. resolution_failed did (unread e)) resp.body

  abbrev pub did_doc_url : String → Option String → Option String → Result FederationError String
  did_doc_url did (some domain) plc = ok ("https://" ++ (slashes domain ++ "/.well-known/did.json"))
  did_doc_url did none (some rest) = ok ("https://plc.directory/" ++ did)
  did_doc_url did none none = err (resolution_failed did (unsupported_method did))

  module _ (web : Web) where
    abbrev pub on_service :
        Option String → Result FederationError String → Result FederationError String
    on_service none rest = rest
    on_service (some endpoint) rest = do validate_remote_url web.net endpoint; ok endpoint

    -- The loop over the services of a DID document.
    unfoldable pub find_pds : String → List json.Value → Result FederationError String
    find_pds did [] = err (resolution_failed did no_pds)
    find_pds did (svc ∷ svcs) =
        let rest = find_pds did svcs in
        if is_pds svc then on_service (text_at svc "serviceEndpoint") rest else rest

    unfoldable pub resolve_did_to_pds : String → Result FederationError String
    resolve_did_to_pds did = do
      url ← did_doc_url did (strip_prefix "did:web:" did) (strip_prefix "did:plc:" did)
      validate_remote_url web.net url
      doc ← body_of did did_http_error did_status invalid_did_json (web.send url)
      services ← ok_or (list_at doc "service") (resolution_failed did no_services)
      find_pds did services

    abbrev pub profile_url : String → String → String
    profile_url pds_endpoint user_did =
        pds_endpoint
        ++ ("/xrpc/com.atproto.repo.getRecord?repo="
            ++ (json.encode user_did ++ "&collection=blue.catbird.mls.profile&rkey=self"))

    abbrev pub suites_of : Option (List json.Value) → Option (List String)
    suites_of none = none
    suites_of (some vs) = some (texts_of vs)

    unfoldable pub resolve_from_repo : String → Result FederationError DsEndpoint
    resolve_from_repo user_did = do
      pds_endpoint ← resolve_did_to_pds user_did
      body ←
          body_of user_did http_failed pds_status invalid_json
            (web.send (profile_url pds_endpoint user_did))
      value ← ok_or (json.get body "value") (resolution_failed user_did no_value)
      delivery_service ←
          ok_or (text_at value "deliveryService") (resolution_failed user_did no_delivery_service)
      validate_remote_url web.net delivery_service
      ok (record {
        did = user_did;
        endpoint = delivery_service;
        supported_cipher_suites = suites_of (list_at value "supportedCipherSuites");
      })
