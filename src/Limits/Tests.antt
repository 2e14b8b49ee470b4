-- ===== src/Limits/Tests.antt =====
-- The theorems on the request limits at concrete data.
use azd_santa.Base.{ℕ, ◌≤◌, String, true, false, ◌≡◌, refl, Option, none, some, List, [], ◌∷◌}
use azd_santa.Base.{string_eq, nat_eq, ◌==◌, ◌=?◌, leb, length, take, if◌then◌else◌}
use azd_santa.Base.Text.{codes, decimal}
use azd_santa.Json.{Value, Items, Fields, Syntax, Elements, Pairs, spell}
use azd_santa.Json.Hooks.{bounded, load, unique_object}
use azd_santa.Json.Strict.{IsStrict, load-IsStrict}
use azd_santa.Platform.{Platform, Bytes}
use azd_santa.Limits.Config.{Limits, is_decimal, defaults, setting, configured_limits}
use azd_santa.Limits.Depth.{check_depth}
use azd_santa.Limits.Nesting.{Doc, Docs, Piece, check_depth-write, write_all, nesting_all}
use azd_santa.Limits.Decode.{
  accept, reject, Request, collection, count_events, check_length, expand, parse_body, decode_bytes,
  decode_request, event_collections,
}
use azd_santa.Limits.Bounds.{
  IsExpanded, IsRead, total, AreLists, decode_bytes_bounds, decode_request_whole,
}
use azd_santa.Limits.Statuses.{Explains, rejection-Explained}

-- a parser that knows one text
abbrev text : List ℕ
text = codes "{\"events\":[{}]}"

abbrev syntax : Syntax
syntax =
    Syntax.obj (
      Pairs.pair "events" (Syntax.arr (Elements.cons (Syntax.obj Pairs.end) Elements.nil))
        Pairs.end)

abbrev document : Fields
document =
    Fields.field "events" (Value.arr (Items.cons (Value.obj Fields.end) Items.nil)) Fields.end

abbrev platform : Platform
platform = record {
  dumps = λ v. none;
  parse = λ raw. none;
  sha256 = λ raw. "";
  hmac = λ key raw. [];
  b64encode = λ raw. "";
  b64decode = λ t. none;
  float_equals = λ bits n. false;
  inflate = λ wbits raw limit.
      some (record { output = take limit raw; unconsumed = false; eof = true; unused = false });
  utf8 = λ raw. some raw;
  parse_text = λ t. if length t =? length text then some syntax else none;
  normalize = λ t. t;
  to_int = λ t. none;
}

abbrev request : Request
request = record { content_length = some "15"; content_encoding = none; stream = text }

accepted : decode_bytes platform defaults text none ≡ accept document
unfolding decode_bytes expand parse_body check_depth load unique_object string_eq count_events
    collection
accepted = refl

accepted_request : decode_request platform defaults request ≡ accept document
unfolding decode_request check_length decode_bytes expand parse_body check_depth load unique_object
    string_eq count_events collection is_decimal decimal
accepted_request = refl

decode_bytes_bounds_example :
    (length text ≤ defaults.compressed)
    × ((bytes : Bytes) × IsExpanded platform defaults text "" bytes
        × (length bytes ≤ defaults.expanded)
        × IsRead platform defaults bytes document)
    × IsStrict (Value.obj document)
    × AreLists document event_collections
    × (total document event_collections ≤ defaults.events)
decode_bytes_bounds_example = decode_bytes_bounds platform defaults text none document accepted

decode_request_whole_example :
    (length text ≤ defaults.compressed)
    × (decode_bytes platform defaults text none ≡ accept document)
decode_request_whole_example =
    decode_request_whole platform defaults request document accepted_request

-- an encoding that is not supported
abbrev brotli : Request
brotli = record { content_length = some "15"; content_encoding = some "br"; stream = text }

brotli_rejected :
    decode_request platform defaults brotli ≡ reject 415 "Unsupported Content-Encoding"
unfolding decode_request check_length decode_bytes expand string_eq is_decimal decimal
brotli_rejected = refl

rejection-Explained_example : Explains platform defaults brotli 415
rejection-Explained_example =
    rejection-Explained platform defaults brotli 415 "Unsupported Content-Encoding" brotli_rejected

loaded : load bounded syntax ≡ some (Value.obj document)
unfolding load unique_object
loaded = refl

load-IsStrict_example : (spell (Value.obj document) ≡ syntax) × IsStrict (Value.obj document)
load-IsStrict_example = load-IsStrict syntax (Value.obj document) loaded

abbrev environ : String → Option String
environ name = if name == "AZD_SANTA_MAX_DEPTH" then some "40" else none

abbrev deeper : Limits
deeper = record { compressed = 1048576; expanded = 4194304; depth = 40; events = 100 }

configured : configured_limits environ ≡ some deeper
unfolding configured_limits setting string_eq is_decimal decimal
configured = refl

-- {"[":[]}
abbrev brackets : Docs
brackets =
    Docs.next
      (Doc.object (
        Docs.next (Doc.quoted (Piece.plain b'[' refl ∷ []))
          (Docs.next (Doc.letter b':' refl) (Docs.next (Doc.list Docs.done) Docs.done))))
      Docs.done

check_depth-write_example : check_depth (write_all brackets []) 1 ≡ leb (nesting_all brackets) 1
check_depth-write_example = check_depth-write 1 brackets
