-- ===== src/Hpack/Static.antt =====
-- The static table of src/viriatum/http/hpack.c.
use Prim.Native.Char.{code}
use Prim.Native.String.{String}
use viriatum.Base.{ℕ, List, [], ◌∷◌}
use viriatum.Hpack.{Header}

-- The bytes of an ASCII text.
abbrev pub codes : String → List ℕ
codes String.[] = []
codes (String.◌∷◌ c s) = code c ∷ codes s

abbrev pub field : String → String → Header
field name value = record { name = codes name; value = codes value }

-- `hpack_static_table`
unfoldable pub static_table : List Header
static_table =
    field ":authority" ""
    ∷ field ":method" "GET"
    ∷ field ":method" "POST"
    ∷ field ":path" "/"
    ∷ field ":path" "/index.html"
    ∷ field ":scheme" "http"
    ∷ field ":scheme" "https"
    ∷ field ":status" "200"
    ∷ field ":status" "204"
    ∷ field ":status" "206"
    ∷ field ":status" "304"
    ∷ field ":status" "400"
    ∷ field ":status" "404"
    ∷ field ":status" "500"
    ∷ field "accept-charset" ""
    ∷ field "accept-encoding" "gzip, deflate"
    ∷ field "accept-language" ""
    ∷ field "accept-ranges" ""
    ∷ field "accept" ""
    ∷ field "access-control-allow-origin" ""
    ∷ field "age" ""
    ∷ field "allow" ""
    ∷ field "authorization" ""
    ∷ field "cache-control" ""
    ∷ field "content-disposition" ""
    ∷ field "content-encoding" ""
    ∷ field "content-language" ""
    ∷ field "content-length" ""
    ∷ field "content-location" ""
    ∷ field "content-range" ""
    ∷ field "content-type" ""
    ∷ field "cookie" ""
    ∷ field "date" ""
    ∷ field "etag" ""
    ∷ field "expect" ""
    ∷ field "expires" ""
    ∷ field "from" ""
    ∷ field "host" ""
    ∷ field "if-match" ""
    ∷ field "if-modified-since" ""
    ∷ field "if-none-match" ""
    ∷ field "if-range" ""
    ∷ field "if-unmodified-since" ""
    ∷ field "last-modified" ""
    ∷ field "link" ""
    ∷ field "location" ""
    ∷ field "max-forwards" ""
    ∷ field "proxy-authenticate" ""
    ∷ field "proxy-authorization" ""
    ∷ field "range" ""
    ∷ field "referer" ""
    ∷ field "refresh" ""
    ∷ field "retry-after" ""
    ∷ field "server" ""
    ∷ field "set-cookie" ""
    ∷ field "strict-transport-security" ""
    ∷ field "transfer-encoding" ""
    ∷ field "user-agent" ""
    ∷ field "vary" ""
    ∷ field "via" ""
    ∷ field "www-authenticate" ""
    ∷ []
