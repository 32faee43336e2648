-- ===== src/Federation/Repo/Example.antt =====
-- A `Json` that has its law, with the documents of one user, and a network that serves them.
use Prim.Native.Char.{Char, char, code}
use Prim.Native.String as Text
use mls_ds.Prelude.{
  String, ◌≡◌, refl, ap, ◌∙◌, Option, none, some, List, [], ◌∷◌, ◌==◌, str_eq, if◌then◌else◌,
}
use mls_ds.Prelude.Results.{ok, err}
use mls_ds.Federation.Address.{v4}
use mls_ds.Federation.Url.{Net, failed, addresses}
use mls_ds.Federation.Repo.{Json, Web}

-- A list of texts as one text: a mark before every character, a comma after every text.
word : String → String → String
word Text.[] t = Text.◌∷◌ (char b',' tt) t
word (Text.◌∷◌ c s) t = Text.◌∷◌ (char b'x' tt) (Text.◌∷◌ c (word s t))

pub write : List String → String
write [] = ""
write (s ∷ l) = word s (write l)

abbrev push : Char → List String → List String
push c [] = Text.◌∷◌ c "" ∷ []
push c (s ∷ l) = Text.◌∷◌ c s ∷ l

pub read : String → List String
read Text.[] = []
read (Text.◌∷◌ m Text.[]) = "" ∷ []
read (Text.◌∷◌ m (Text.◌∷◌ c s)) =
    let past = read (Text.◌∷◌ c s) in
    let rest = read s in if code m == b',' then "" ∷ past else push c rest

read_comma : (t : String) → read (Text.◌∷◌ (char b',' tt) t) ≡ "" ∷ read t
unfolding read
read_comma Text.[] = refl
read_comma (Text.◌∷◌ c s) = refl

read-word : (s t : String) → read (word s t) ≡ s ∷ read t
unfolding read word
read-word Text.[] t = read_comma t
read-word (Text.◌∷◌ c s) t = rw (read-word s t) refl

pub read-write : (l : List String) → read (write l) ≡ l
unfolding read write
read-write [] = refl
read-write (s ∷ l) = read-word s (write l) ∙ ap (◌∷◌ s) (read-write l)

-- The DID document with its one service, and the record with its value.
pub data Document : Type 0 where
  did_document services service found_record profile suites : Document
  text : String → Document

abbrev pub child : Document → String → Option Document
child did_document name = if str_eq name "service" then some services else none
child service name =
    if str_eq name "id"
    then some (text "#atproto_pds")
    else if str_eq name "serviceEndpoint"
    then some (text "https://pds.example")
    else none
child found_record name = if str_eq name "value" then some profile else none
child profile name =
    if str_eq name "deliveryService"
    then some (text "https://ds.example")
    else if str_eq name "supportedCipherSuites"
    then some suites
    else none
child _ name = none

abbrev pub string_of : Document → Option String
string_of (text s) = some s
string_of _ = none

abbrev pub items : Document → Option (List Document)
items services = some (service ∷ [])
items suites = some (text "suite 1" ∷ profile ∷ text "suite 2" ∷ [])
items _ = none

abbrev pub documents : Json
documents = record {
  Value = Document;
  get = child;
  as_str = string_of;
  as_array = items;
  to_string = λ l. some (write l);
  from_str = λ s. some (read s);
  encode = λ s. s;
  from_str-to_string = λ l. (write l, refl, ap some (read-write l));
}

-- Hosts under example are on one public address, the others on a private one.
abbrev pub public_net : Net
public_net = record {
  parse = λ s.
      if str_eq s "https://ds.example"
      then ok (record {
        scheme = "https";
        host_str = some "ds.example";
        port_or_known_default = some 443;
      })
      else if str_eq s "https://pds.example"
      then ok (record {
        scheme = "https";
        host_str = some "pds.example";
        port_or_known_default = some 443;
      })
      else ok (record {
        scheme = "https";
        host_str = some "plc.directory";
        port_or_known_default = some 443;
      });
  parse_ip = λ s. none;
  lookup_host = λ host port. addresses (v4 (record { a = 93; b = 184; c = 216; d = 34 }) ∷ []);
  insecure_http = none;
  outbound_hosts = none;
}

abbrev pub web : Web documents
web = record {
  net = public_net;
  send = λ url.
      if str_eq url "https://plc.directory/did:plc:u"
      then ok (record { status = 200; body = ok did_document })
      else ok (record { status = 200; body = ok found_record });
}

-- A network on which no name resolves.
abbrev pub down : Web documents
down = record {
  net = record public_net { lookup_host = λ host port. failed "no such host" };
  send = λ url. err "unreachable";
}
