-- ===== src/PeerTable/Address.antt =====
-- The canonical form of an address in src/peerTable.ts, over the platform's `URL` as a parameter.
use Prim.Native.String.{◌++◌}
use Prim.Native.Char.{code}
use proof_of_authority_block.Common.{
  ℕ, ◌+◌, ◌-◌, ◌*◌, String, Bool, false, ◌==◌, not, Option, none, some, ◌&&◌, ◌||◌, leb, ◌===◌,
  if◌then◌else◌,
}
use proof_of_authority_block.Json.{decimal}

-- The members of a `URL` that the code reads.
pub record Url : Type 0 where
  pub protocol : String
  pub hostname : String
  pub port : String

-- `new URL(input)`; `none` stands for a throw.
abbrev pub UrlParser : Type 0
UrlParser = String → Option Url

-- The set LOOPBACK.
abbrev pub is_loopback : String → Bool
is_loopback h = h === "localhost" || h === "127.0.0.1" || h === "[::1]" || h === "::1"

digits_from : ℕ → String → Option ℕ
digits_from acc String.[] = some acc
digits_from acc (String.◌∷◌ ch s) =
    let rest = digits_from (acc * 10 + (code ch - b'0')) s in
    if leb b'0' (code ch) && leb (code ch) b'9' then rest else none

-- `Number(text)` for the port of a URL, which is empty or decimal; `none` is no integer.
unfoldable pub port_number : String → Option ℕ
unfolding digits_from
port_number text = if text === "" then none else digits_from 0 text

-- `port >= 1 && port <= 65535`
abbrev pub is_port : ℕ → Bool
is_port n = leb 1 n && leb n 65535

-- `normalizeAddress`
unfoldable pub normalize_address : UrlParser → String → Option String
unfolding port_number
normalize_address parse input = elim (parse input) [
  | none ↦ none
  | some url ↦ elim (port_number url.port) [
    | none ↦ none
    | some port ↦
        let host = if is_loopback url.hostname then "localhost" else url.hostname in
        if (url.protocol === "ws:" || url.protocol === "wss:")
          && is_port port
          && not (url.hostname === "")
        then some (url.protocol ++ ("//" ++ (host ++ (":" ++ decimal port))))
        else none
  ]
]

-- `remoteIp.replace(/^::ffff:/i, '')`
drop_mapped : String → String
drop_mapped
      (String.◌∷◌ a (
        String.◌∷◌ b
          (String.◌∷◌ d (String.◌∷◌ e (String.◌∷◌ f (String.◌∷◌ g (String.◌∷◌ h s))))))) =
    let is_f : ℕ → Bool = λ k. k == b'f' || k == b'F' in
    let whole =
      String.◌∷◌ a (
        String.◌∷◌ b
          (String.◌∷◌ d (String.◌∷◌ e (String.◌∷◌ f (String.◌∷◌ g (String.◌∷◌ h s)))))) in
    if code a == b':'
      && code b == b':'
      && is_f (code d)
      && is_f (code e)
      && is_f (code f)
      && is_f (code g)
      && code h == b':'
    then s
    else whole
drop_mapped s = s

-- `ip.includes(':')`
has_colon : String → Bool
has_colon String.[] = false
has_colon (String.◌∷◌ ch s) = code ch == b':' || has_colon s

-- `addressFromRemote`, where `none` is an unknown remote address.
unfoldable pub address_from_remote : UrlParser → Option String → ℕ → Option String
unfolding drop_mapped has_colon
address_from_remote parse none port = none
address_from_remote parse (some remote_ip) port =
    let ip = drop_mapped remote_ip in
    let host =
      if is_loopback ip then "localhost" else if has_colon ip then "[" ++ (ip ++ "]") else ip in
    if not (remote_ip === "") && is_port port
    then normalize_address parse ("ws://" ++ (host ++ (":" ++ decimal port)))
    else none
