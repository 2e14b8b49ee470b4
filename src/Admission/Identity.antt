-- ===== src/Admission/Identity.antt =====
-- `configured`, `identity`, `credential_from` and `SecretPathFilter`. An exception is `none`.
use azd_santa.Base.{
  ℕ, String, Bool, true, false, not, ◌&&◌, ◌||◌, Option, none, some, List, [], ◌∷◌, ◌++◌,
}
use azd_santa.Base.{◌==◌, ◌=?◌, ltb, leb, any, length, string_eq, if◌then◌else◌}
use azd_santa.Base.Dict.{Dict, lookup, insert, erase}
use azd_santa.Base.Text.{split_at, after_start, codes, is_digit, all, decimal, concat, starts_with}
use azd_santa.Admission.Scripts.{Config}

infixl 5 ◌>>=◌
abbrev pub ◌>>=◌ {ℓ κ} : {A : Type ℓ} {B : Type κ} → Option A → (A → Option B) → Option B
◌>>=◌ none f = none
◌>>=◌ (some a) f = f a

-- `PREFIXES` and `FORWARD`
abbrev pub prefixes : List String
prefixes = "/public/santa/sync/" ∷ "/santa/sync/" ∷ []

abbrev pub forward : List String
forward =
    "HTTP_FORWARDED" ∷ "HTTP_X_FORWARDED_FOR" ∷ "HTTP_X_REAL_IP" ∷ "HTTP_X_SSL_CLIENT_S_DN"
    ∷ "HTTP_X_SSL_CLIENT_VERIFY" ∷ "HTTP_X_FORWARDED_PROTO" ∷ "HTTP_X_FORWARDED_CLIENT_CERT"
    ∷ "HTTP_X_SSL_CLIENT_CERT" ∷ "HTTP_X_CLIENT_CERT" ∷ []

abbrev pub client_header : String
client_header = "HTTP_X_AZD_SANTA_CLIENT_IP"

-- The calls of `ipaddress`, `hmac` and `str` of Python's library.
pub record Addresses : Type 1 where
  pub Address : Type 0
  -- `ip_address(text)`
  pub parse : String → Option Address
  -- `address in ip_network(peer)`; `none` is a peer that is no network
  pub is_member : Address → String → Option Bool
  -- `ip_network(peer, strict=True).prefixlen`
  pub prefix_length : String → Option ℕ
  pub is_v6 : Address → Bool
  -- `str(address)`, and `str` of its network of 64 bits
  pub show : Address → String
  pub show_network : Address → String
  -- `mac(domain, value)` under the key
  pub mac : String → String → String
  -- `text.split()`
  pub words : String → List String
  pub lower : String → String

pub data Mode : Type 0 where
  direct : Mode
  proxy : Mode

-- what `configured` returns
pub record Trust : Type 0 where
  pub config : Config
  pub mode : Mode
  pub peers : List String

abbrev pub or_default : String → Option String → String
or_default default none = default
or_default default (some value) = value

-- a limit: at most four digits, from 1 up to its ceiling
abbrev pub is_limit : String → ℕ → Bool
is_limit raw ceiling =
    all is_digit (codes raw)
    && leb 1 (length (codes raw))
    && leb (length (codes raw)) 4
    && leb 1 (decimal raw)
    && leb (decimal raw) ceiling

unfoldable pub limit : Dict String String → String → String → ℕ → Option ℕ
limit environ key default ceiling =
    let raw = or_default default (lookup (concat "AZD_SANTA_ADMISSION_" key) environ) in
    if is_limit raw ceiling then some (decimal raw) else none

abbrev pub mode_of : String → Option Mode
mode_of text =
    if text == "direct" then some direct else if text == "proxy" then some proxy else none

abbrev pub is_empty : List String → Bool
is_empty [] = true
is_empty (peer ∷ peers) = false

-- peers go with a proxy, and only with it
abbrev pub mode_fits : Mode → List String → Bool
mode_fits direct peers = is_empty peers
mode_fits proxy peers = not (is_empty peers)

module _ (N : Addresses) where
  abbrev pub peers_fit : List String → Bool
  peers_fit [] = true
  peers_fit (peer ∷ peers) = elim (N.prefix_length peer) [
    | none ↦ false
    | some n ↦ not (n =? 0) && peers_fit peers
  ]

  -- AZD_SANTA_ADMISSION_PEERS
  abbrev pub peers_in : Option String → List String
  peers_in none = []
  peers_in (some text) = if text == "" then [] else split_at b',' text

  -- `configured`
  unfoldable pub configured : Dict String String → Option Trust
  configured environ =
      let peers = peers_in (lookup "AZD_SANTA_ADMISSION_PEERS" environ) in
      limit environ "WINDOW" "60" 300 >>= λ window.
      limit environ "GLOBAL_MAX" "120" 1200 >>= λ global_max.
      limit environ "SOURCE_MAX" "60" 1200 >>= λ source_max.
      limit environ "CREDENTIAL_MAX" "30" 1200 >>= λ credential_max.
      mode_of (or_default "direct" (lookup "AZD_SANTA_ADMISSION_MODE" environ)) >>= λ mode.
      if mode_fits mode peers && leb (length peers) 8 && peers_fit peers
      then some record {
        config = record {
          window = window;
          global_max = global_max;
          source_max = source_max;
          credential_max = credential_max;
          capacity = 1;
        };
        mode = mode;
        peers = peers;
      }
      else none

  abbrev pub header_of : String → Dict String String → String
  header_of name meta = or_default "" (lookup name meta)

  -- `any(address in ip_network(peer) for peer in peers)`
  unfoldable pub is_trusted : N.Address → List String → Option Bool
  is_trusted address [] = some false
  is_trusted address (peer ∷ peers) = elim (N.is_member address peer) [
    | none ↦ none
    | some true ↦ some true
    | some false ↦ is_trusted address peers
  ]

  -- the address of the client
  unfoldable pub client_address : Trust → Dict String String → Option N.Address
  client_address trust meta = elim trust.mode [
    | direct ↦ N.parse (header_of "REMOTE_ADDR" meta)
    | proxy ↦ (do
      address ← N.parse (header_of "REMOTE_ADDR" meta)
      trusted ← is_trusted address trust.peers
      if trusted then N.parse (header_of client_header meta) else none)
  ]

  abbrev pub source_of : N.Address → String
  source_of address = if N.is_v6 address then N.show_network address else N.show address

  unfoldable pub erase_all : List String → Dict String String → Dict String String
  erase_all [] meta = meta
  erase_all (name ∷ names) meta = erase_all names (erase name meta)

  abbrev pub scrubbed : N.Address → Dict String String → Dict String String
  scrubbed address meta =
      insert "HTTP_X_REAL_IP" (N.show address) (erase_all (forward ++ client_header ∷ []) meta)

  abbrev pub keys_of : N.Address → String → String × String
  keys_of address credential = (
    concat "sync-source:" (N.mac "source" (source_of address)),
    concat "sync-credential:" (N.mac "credential" credential),
  )

  abbrev pub identify :
      String → Dict String String → Option N.Address → Option (String × String) × Dict String String
  identify credential meta none = (none, meta)
  identify credential meta (some address) =
      (some (keys_of address credential), scrubbed address meta)

  -- `identity`, with the headers that it leaves
  unfoldable pub identity :
      Trust → Dict String String → String → Option (String × String) × Dict String String
  identity trust meta credential = identify credential meta (client_address trust meta)

  -- the credential of a path: the first of exactly three parts after a prefix
  abbrev pub path_part : List String → Option String
  path_part (part ∷ _ ∷ _ ∷ []) = if leb (length (codes part)) 1024 then some part else none
  path_part _ = none

  unfoldable pub path_credential : List String → String → String
  path_credential [] path = "!missing"
  path_credential (start ∷ starts) path =
      let later = path_credential starts path in
      elim (after_start start path) [
        | none ↦ later
        | some rest ↦ elim (path_part (split_at b'/' rest)) [ none ↦ later | some part ↦ part ]
      ]

  abbrev pub bearer_part : List String → String
  bearer_part (scheme ∷ token ∷ []) = if scheme == "Bearer" then token else "!invalid"
  bearer_part _ = "!invalid"

  -- `credential_from`
  unfoldable pub credential_from : Dict String String → String → String
  credential_from meta path = elim (lookup "HTTP_ZENTRAL_AUTHORIZATION" meta) [
    | none ↦ path_credential prefixes path
    | some header ↦
        if ltb 1024 (length (codes header)) then "!invalid" else bearer_part (N.words header)
  ]

  -- whether a text occurs in another
  unfoldable pub occurs : String → String → Bool
  occurs part String.[] = starts_with "" part
  occurs part (String.◌∷◌ c text) = starts_with (String.◌∷◌ c text) part || occurs part text

  abbrev pub is_sync_path : String → Bool
  is_sync_path path = any (starts_with path) prefixes

  -- `SecretPathFilter.filter`, for the path of the record's request and its message
  unfoldable pub filter : Option String → String → Bool
  filter (some path) message =
      not (is_sync_path path)
      && not
          (any (λ part. occurs part (N.lower message)) (prefixes ++ "zentral-authorization" ∷ []))
  filter none message =
      not (any (λ part. occurs part (N.lower message)) (prefixes ++ "zentral-authorization" ∷ []))
