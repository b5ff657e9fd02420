-- ===== src/Nokia/Payloads.antt =====
-- Which replies of the carrier's gateway integrations/nokia/live.py takes for an answer.
use zonegate_backend.Nokia.Live.{
  LiveGateway, HttpReply, read_reply, returned, body, text_block, is_declining, open_payload,
  read_payload, http_error, load_block, other_error, unreadable, not_json,
}
use zonegate_backend.Prelude.{
  String, ◌≡◌, ◌↔◌, none, some, Option, false, arith, Option-cases, Bool-cases, inl, inr, refl,
}
use zonegate_backend.Nokia.Json.{
  Members, object, get_member, text, has_member, Json, boolean, integer, fraction, array, null,
}

-- A reply that carries this payload.
pub record IsUsable (g : LiveGateway) (reply : HttpReply) (payload : Members) : Type 0 where
  pub members : Members
  pub answered_with : reply ≡ body (object members)
  pub no_error : get_member "error" members ≡ none
  pub block : String
  pub carried : text_block (object members) ≡ some (text block)
  pub parsed : g.loads block ≡ some (object payload)
  pub no_detail : get_member "detail" payload ≡ none
  pub no_status : get_member "status" payload ≡ none
  pub no_code : get_member "code" payload ≡ none

has_none :
    (key : String) (payload : Members)
    → has_member key payload ≡ false
    → get_member key payload ≡ none
unfolding has_member
has_none key payload h = elim (Option-cases (get_member key payload)) [
  | inl e ↦ e
  | inr (j, e) ↦ absurd (ground (arith, e, h))
]

accepted :
    (payload : Members)
    → is_declining payload ≡ false
    → (get_member "detail" payload ≡ none)
      × (get_member "status" payload ≡ none)
      × (get_member "code" payload ≡ none)
unfolding is_declining
accepted payload h = (
  has_none "detail" payload (ground arith),
  has_none "status" payload (ground arith),
  has_none "code" payload (ground arith),
)

opened :
    (g : LiveGateway) (tool : String) (o : Option Json) (payload : Members)
    → open_payload g tool o ≡ returned payload
    → (o ≡ some (object payload)) × (is_declining payload ≡ false)
unfolding open_payload
opened g tool none payload h = absurd (cc h)
opened g tool (some (object found)) payload h = elim (Bool-cases (is_declining found)) [
  | inl declines ↦ absurd (ground (arith, declines, h))
  | inr fine ↦ (ground (arith, fine, h), ground (arith, fine, h))
]
opened g tool (some null) payload h = absurd (cc h)
opened g tool (some (boolean b)) payload h = absurd (cc h)
opened g tool (some (integer n)) payload h = absurd (cc h)
opened g tool (some (fraction x)) payload h = absurd (cc h)
opened g tool (some (text s)) payload h = absurd (cc h)
opened g tool (some (array xs)) payload h = absurd (cc h)

loaded :
    (g : LiveGateway) (o : Option Json) (j : Json)
    → load_block g o ≡ some j
    → (block : String) × (o ≡ some (text block)) × (g.loads block ≡ some j)
unfolding load_block
loaded g (some (text s)) j h = (s, refl, h)
loaded g none j h = absurd (cc h)
loaded g (some null) j h = absurd (cc h)
loaded g (some (boolean b)) j h = absurd (cc h)
loaded g (some (integer n)) j h = absurd (cc h)
loaded g (some (fraction x)) j h = absurd (cc h)
loaded g (some (array xs)) j h = absurd (cc h)
loaded g (some (object ms)) j h = absurd (cc h)

module _ (g : LiveGateway) (tool : String) (payload : Members) where
  refuses :
      (j : Json)
      → (elim (g.subscript_error j) [ some e ↦ other_error e | none ↦ unreadable tool ])
        ≡ returned payload
      → IsUsable g (body j) payload
  refuses j h = elim (Option-cases (g.subscript_error j)) [
    | inl e ↦ absurd (ground (arith, e, h))
    | inr (t, e) ↦ absurd (ground (arith, e, h))
  ]

  object-IsUsable :
      (members : Members)
      → read_reply g tool (body (object members)) ≡ returned payload
      → IsUsable g (body (object members)) payload
  unfolding read_reply read_payload
  object-IsUsable members h = elim (Option-cases (get_member "error" members)) [
    | inr (e, q) ↦ absurd (ground (arith, q, h))
    | inl none_found ↦
        let opening : open_payload g tool (load_block g (text_block (object members)))
            ≡ returned payload =
          rw (none_found, read_reply, read_payload) at h in
        let (found, fine) = opened g tool _ payload opening in
        let (block, carried, parsed) = loaded g _ _ found in
        let (no_detail, no_status, no_code) = accepted payload fine in
        record {
          members = members;
          answered_with = refl;
          no_error = none_found;
          block = block;
          carried = carried;
          parsed = parsed;
          no_detail = no_detail;
          no_status = no_status;
          no_code = no_code;
        }
  ]

  reply-IsUsable :
      (reply : HttpReply) → read_reply g tool reply ≡ returned payload → IsUsable g reply payload
  unfolding read_reply
  reply-IsUsable (http_error e) h = absurd (cc h)
  reply-IsUsable not_json h = absurd (cc h)
  reply-IsUsable (body (object members)) h = object-IsUsable members h
  reply-IsUsable (body null) h = refuses null h
  reply-IsUsable (body (boolean b)) h = refuses (boolean b) h
  reply-IsUsable (body (integer n)) h = refuses (integer n) h
  reply-IsUsable (body (fraction x)) h = refuses (fraction x) h
  reply-IsUsable (body (text s)) h = refuses (text s) h
  reply-IsUsable (body (array xs)) h = refuses (array xs) h

  taken :
      (reply : HttpReply) → IsUsable g reply payload → read_reply g tool reply ≡ returned payload
  unfolding read_reply read_payload load_block open_payload is_declining has_member
  taken reply u =
      rw
        (
          u.answered_with, read_reply, u.no_error, read_payload, u.carried, load_block, u.parsed,
          open_payload, is_declining, has_member, u.no_detail, u.no_status, u.no_code,
        )
        refl

-- A call of a tool ends with a payload exactly if the gateway answered with an object that reports
-- no error and whose first content block is a text that parses as that payload, an object with none
-- of the members `detail`, `status` and `code`. Every other reply is a declined call or an error.
pub payload_iff :
    (g : LiveGateway) (tool : String) (reply : HttpReply) (payload : Members)
    → (read_reply g tool reply ≡ returned payload) ↔ IsUsable g reply payload
payload_iff g tool reply payload = (reply-IsUsable g tool payload reply, taken g tool payload reply)
