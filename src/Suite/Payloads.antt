-- ===== src/Suite/Payloads.antt =====
-- frontend/src/components/hubs/eval/SuiteDetailWorkspace.tsx: what `handleSaveCase` sends.
use cont_ained.Base.{
  text_or, String, ◌||◌, Option, none, some, ◌==◌, ◌≡◌, ◌≢◌, ◌⊎◌, refl, inl, inr, arith, eq_iff,
  Bool-cases, ne_of_eq-false, eq-false_of_ne, or_text, is_some,
}
use cont_ained.Suite.Data.{Host, TestCase, CaseForm, Payload}
use cont_ained.Suite.{payload_of, or_undefined, form_of}

-- No assertion is sent.
pub record IsPlain (q : Payload) : Type 0 where
  pub no_node : q.node_id ≡ none
  pub no_type : q.assertion_type ≡ none
  pub no_value : q.expected_value ≡ none

-- A whole assertion is sent, with nothing blank in it.
pub record IsWhole {Num : Type 0} (host : Host Num) (f : CaseForm) (q : Payload) : Type 0 where
  pub node_sent : q.node_id ≡ some (host.trim f.node_id)
  pub type_sent : q.assertion_type ≡ some f.assertion_type
  pub value_sent : q.expected_value ≡ some (host.trim f.expected_value)
  pub node_filled : host.trim f.node_id ≢ ""
  pub type_filled : f.assertion_type ≢ ""
  pub value_filled : host.trim f.expected_value ≢ ""

or_undefined-ne : (s : String) → or_undefined s ≢ some ""
or_undefined-ne s h = ground (arith, eq_iff s "", h)

-- The fields of the case, as a payload.
abbrev pub fields_of : TestCase → Payload
fields_of c = record {
  input_query = text_or c.input_query "";
  expected_output = c.expected_output;
  expected_context = c.expected_context;
  node_id = c.node_id;
  assertion_type = c.assertion_type;
  expected_value = c.expected_value;
}

module _ {Num : Type 0} (host : Host Num) where
  -- A test case is sent with a whole assertion or with none: the node, the type and the value go
  -- together, none of them blank, and so do no blank output and no blank context.
  pub payload_of_lem :
      (f : CaseForm)
      → let q = payload_of host f in
        (IsPlain q ⊎ IsWhole host f q)
        × (q.expected_output ≢ some "")
        × (q.expected_context ≢ some "")
  unfolding payload_of
  payload_of_lem f =
      elim (Bool-cases (
        host.trim f.node_id == ""
        || (f.assertion_type == "" || host.trim f.expected_value == ""))) [
          | inl blank ↦ rw blank (
            inl (record { no_node = refl; no_type = refl; no_value = refl }),
            or_undefined-ne _,
            or_undefined-ne _,
          )
          | inr filled ↦ rw filled (
            inr (record {
              node_sent = refl;
              type_sent = refl;
              value_sent = refl;
              node_filled = ne_of_eq-false (host.trim f.node_id) "" (ground (arith, filled));
              type_filled = ne_of_eq-false f.assertion_type "" (ground (arith, filled));
              value_filled =
                  ne_of_eq-false (host.trim f.expected_value) "" (ground (arith, filled));
            }),
            or_undefined-ne _,
            or_undefined-ne _,
          )
        ]

  -- A text of the gateway that comes back as it is: it is missing, or it is not empty and has no
  -- blanks around it.
  abbrev pub IsTrimmed : Option String → Type 0
  IsTrimmed none = Unit {0}
  IsTrimmed (some s) = (s ≢ "") × (host.trim s ≡ s)

  -- A stored case as this page writes it: a query, and an assertion that is whole or missing.
  pub record IsStored (c : TestCase) : Type 0 where
    pub query : IsTrimmed c.input_query
    pub output : IsTrimmed c.expected_output
    pub context : IsTrimmed c.expected_context
    pub node : IsTrimmed c.node_id
    pub kind : IsTrimmed c.assertion_type
    pub value : IsTrimmed c.expected_value
    pub kind_whole : is_some c.assertion_type ≡ is_some c.node_id
    pub value_whole : is_some c.expected_value ≡ is_some c.node_id

  or_same : (s : String) → or_text s "" ≡ s
  or_same s = ground (arith, eq_iff s "")

  trim_same :
      host.trim "" ≡ ""
      → (o : Option String) → IsTrimmed o
      → host.trim (text_or o "") ≡ text_or o ""
  trim_same blank none h = blank
  trim_same blank (some s) h = rw (or_same s) (h.1)

  sent_same : (o : Option String) → IsTrimmed o → or_undefined (text_or o "") ≡ o
  sent_same none h = refl
  sent_same (some s) h = rw (or_same s) (rw (eq-false_of_ne s "" h.0))

  stored_same :
      (q o x n k v : Option String)
      → host.trim "" ≡ ""
      → IsTrimmed q
      → IsTrimmed o
      → IsTrimmed x
      → IsTrimmed n
      → IsTrimmed k
      → IsTrimmed v
      → is_some k ≡ is_some n
      → is_some v ≡ is_some n
      → payload_of host (record {
        input_query = text_or q "";
        expected_output = text_or o "";
        expected_context = text_or x "";
        node_id = text_or n "";
        assertion_type = text_or k "";
        expected_value = text_or v "";
      })
        ≡ record {
          input_query = text_or q "";
          expected_output = o;
          expected_context = x;
          node_id = n;
          assertion_type = k;
          expected_value = v;
        }
  unfolding payload_of
  stored_same q o x none none none blank hq ho hx hn hk hv e f =
      rw (trim_same blank q hq, trim_same blank o ho, trim_same blank x hx, blank)
        (rw (sent_same o ho, sent_same x hx) refl)
  stored_same q o x (some n) (some k) (some v) blank hq ho hx hn hk hv e f =
      rw
        (
          trim_same blank q hq,
          trim_same blank o ho,
          trim_same blank x hx,
          or_same n,
          or_same k,
          or_same v,
          hn.1,
          hv.1,
          eq-false_of_ne n "" hn.0,
          eq-false_of_ne k "" hk.0,
          eq-false_of_ne v "" hv.0,
        )
        (rw (sent_same o ho, sent_same x hx) refl)
  stored_same q o x none (some k) v blank hq ho hx hn hk hv e f = cc
  stored_same q o x none none (some v) blank hq ho hx hn hk hv e f = cc
  stored_same q o x (some n) none v blank hq ho hx hn hk hv e f = cc
  stored_same q o x (some n) (some k) none blank hq ho hx hn hk hv e f = cc

  -- A case that was stored by this page and is opened and saved again unchanged is sent as it is,
  -- if trimming leaves the empty text alone.
  pub payload_of-form_of :
      host.trim "" ≡ "" → (c : TestCase) → IsStored c → payload_of host (form_of c) ≡ fields_of c
  unfolding form_of
  payload_of-form_of blank c h =
      stored_same c.input_query c.expected_output c.expected_context c.node_id c.assertion_type
        c.expected_value blank h.query h.output h.context h.node h.kind h.value h.kind_whole
        h.value_whole
