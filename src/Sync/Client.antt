-- ===== src/Sync/Client.antt =====
-- A client that follows the protocol: preflight, pages from the empty cursor until none is given,
-- postflight. It is no code of the repository; the theorems below it say that the server lets such
-- a client finish.
use azd_santa.Base.{
  true, false, ◌≡◌, ℕ, zero, suc, String, Option, none, some, List, [], ◌∷◌, ◌==◌, string_eq,
  if◌then◌else◌,
}
use azd_santa.Base.Int.{pos}
use azd_santa.Json.{Value, Items, Fields}
use azd_santa.Platform.{Platform}
use azd_santa.Raise.{ok, err}
use azd_santa.Sync.State.{State}
use azd_santa.Sync.Stages.{Inputs, Outcome, page_body}
use azd_santa.Sync.Handle.{handle}

abbrev pub hello : String → Fields
hello device = Fields.field "machine_id" (Value.str device) Fields.end

abbrev pub ask_page : String → String → Fields
ask_page device c =
    Fields.field "machine_id" (Value.str device) (Fields.field "cursor" (Value.str c) Fields.end)

abbrev pub report : String → ℕ → Fields
report device n = Fields.field "machine_id" (Value.str device) (
    Fields.field "rules_received" (Value.int (pos n)) (
      Fields.field "rules_processed" (Value.int (pos n))
        (Fields.field "syncType" (Value.str "CLEAN") Fields.end)))

-- the one rule and the cursor of an answer 200
abbrev pub page_of : Fields → Option (Value × String)
page_of (Fields.field _ (Value.arr (Items.cons v Items.nil)) (Fields.field _ (Value.str c) _)) =
    some (v, c)
page_of _ = none

unfoldable pub read_page : Outcome → Option (Value × String × State)
read_page (ok r, s) = elim (page_of r.body) [ none ↦ none | some (v, c) ↦ some (v, c, s) ]
read_page (err e, s) = none

module _ (P : Platform) (i : Inputs) (device : String) where
  -- the pages from a cursor on, and the server after them
  unfoldable pub download : ℕ → String → State → Option (List Value × State)
  download zero c s = none
  download (suc fuel) c s =
      elim (read_page (handle P i "ruledownload" device (ask_page device c) s)) [
        | none ↦ none
        | some (v, d, t) ↦
            if d == ""
            then some (v ∷ [], t)
            else elim (download fuel d t) [ none ↦ none | some (vs, u) ↦ some (v ∷ vs, u) ]
      ]

  module _ (k : ℕ) (c : String) (s : State) (v : Value) (d : String) (t : State)
      (answered : handle P i "ruledownload" device (ask_page device c) s
        ≡ (ok (record { status = 200; body = page_body v d }), t)) where
    read_page-answered :
        read_page (handle P i "ruledownload" device (ask_page device c) s) ≡ some (v, d, t)
    unfolding read_page
    read_page-answered = rw answered

    pub download-last : (d == "") ≡ true → download (suc k) c s ≡ some (v ∷ [], t)
    unfolding download
    download-last last = rw (read_page-answered, last, download)

    pub download-more :
        (vs : List Value) (u : State)
        → (d == "") ≡ false
        → download k d t ≡ some (vs, u)
        → download (suc k) c s ≡ some (v ∷ vs, u)
    unfolding download
    download-more vs u more rest = rw (read_page-answered, more, rest, download)
