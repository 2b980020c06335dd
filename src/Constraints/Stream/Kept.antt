-- ===== src/Constraints/Stream/Kept.antt =====
-- internal/gateway/copilot_sdk_stream.go: the text that a constrained stream sends before the first
-- call of a tool.
use ghcp_pool_go.Base.{
  ℕ, ◌+◌, ◌≡◌, refl, Bool, true, false, Option, none, some, List, [], ◌∷◌, ◌++◌, if◌then◌else◌, ◌∙◌,
  ap, sym, append-nil, append_assoc, subst, Text, arith, Prefix, Prefix-refl, Prefix-trans,
  Prefix-append, text,
}
use ghcp_pool_go.Constraints.{index_of, stops_of}
use ghcp_pool_go.Constraints.Stops.{StopFree}
use ghcp_pool_go.Constraints.Stream.{
  Constrained, constrain_delta, constrain_item, constrain_kind, constrain_from, at_start,
  apply_stream_output_constraints, last_if, pass, absorb, finished_item,
}
use ghcp_pool_go.Json.{Fields, get}
use ghcp_pool_go.Results.{StreamItem, Kind, delta, tool_call, error, done, other_kind}
use ghcp_pool_go.Constraints.Stream.Allowed.{heard, text_before_tool}
use ghcp_pool_go.Constraints.Stream.Rounds.{
  Tracks, Good, Tracks-Good, Continues, constrain_delta-Continues,
}

finished_item_done :
    (s : Constrained) (i : StreamItem) → i.kind ≡ done → (finished_item s i).kind ≡ done
unfolding finished_item
finished_item_done s i e = e

-- The induction hypothesis of the lemma below, for the items that are left.
abbrev Onward : (ℕ → Bool) → Fields → Text → List StreamItem → Type 0
Onward taken params whole items =
    (s : Constrained)
    → Tracks params whole s
    → Prefix (s.accumulated ++ text_before_tool items) whole
    → Good params whole (s.emitted ++ text_before_tool (constrain_from taken params s items))

module _ (taken : ℕ → Bool) (params : Fields) (whole : Text) (items : List StreamItem)
    (ih : Onward taken params whole items) where
  abbrev sent_by : List StreamItem → Option Constrained → List StreamItem
  sent_by out none = out
  sent_by out (some s') = out ++ constrain_from taken params s' items

  goes_on :
      (s : Constrained) (acc : Text) (out : List StreamItem) (next : Option Constrained)
      → Continues params whole s acc out next
      → Prefix (acc ++ text_before_tool items) whole
      → Good params whole (s.emitted ++ text_before_tool (sent_by out next))
  goes_on s acc out none c w = c
  goes_on s acc out (some s') (t, a, e, law) w =
      subst (Good params whole) (sym together)
        (ih s' t (subst (λ x. Prefix (x ++ text_before_tool items) whole) (sym a) w))
    where
      rest : List StreamItem
      rest = constrain_from taken params s' items

      together : s.emitted ++ text_before_tool (out ++ rest) ≡ s'.emitted ++ text_before_tool rest
      together =
          ap (λ x. s.emitted ++ x) (law rest)
          ∙ sym (append_assoc s.emitted (text_before_tool out) (text_before_tool rest))
          ∙ ap (λ x. x ++ text_before_tool rest) e

  abbrev Fine : Constrained → List StreamItem × Option Constrained → Type 0
  Fine s r = Good params whole (s.emitted ++ text_before_tool (sent_by r.0 r.1))

  -- What an item of a kind lets the client hear.
  hears :
      (i : StreamItem) (k : Kind) (rest : List StreamItem)
      → i.kind ≡ k
      → text_before_tool (i ∷ rest) ≡ heard k i.text_of (text_before_tool rest)
  hears i k rest e = ap (λ x. heard x i.text_of (text_before_tool rest)) e

  silent :
      (s : Constrained) (out : List StreamItem)
      → Tracks params whole s
      → text_before_tool out ≡ []
      → Good params whole (s.emitted ++ text_before_tool out)
  silent s out h e =
      subst (λ t. Good params whole (s.emitted ++ t)) (sym e) (Tracks-Good params whole s h)

  ends :
      (s : Constrained) (i : StreamItem) (k : Kind) (b : Bool)
      → Tracks params whole s
      → i.kind ≡ k
      → heard k i.text_of [] ≡ []
      → Fine s (last_if b i, none)
  ends s i k true h e z = silent s (i ∷ []) h (hears i k [] e ∙ z)
  ends s i k false h e z = silent s [] h refl

  passes :
      (s s' : Constrained) (i : StreamItem) (b : Bool)
      → Tracks params whole s
      → Tracks params whole s'
      → s.emitted ≡ s'.emitted
      → Prefix (s'.accumulated ++ text_before_tool items) whole
      → ((rest : List StreamItem) → text_before_tool (i ∷ rest) ≡ text_before_tool rest)
      → Fine s (if b then (i ∷ [], some s') else ([], none))
  passes s s' i true h h' e w z =
      goes_on s s'.accumulated (i ∷ []) (some s')
        (
          h',
          refl,
          ap (λ t. s.emitted ++ t) (z []) ∙ append-nil s.emitted ∙ e,
          λ rest. z rest ∙ sym (ap (λ t. t ++ text_before_tool rest) (z [])),
        )
        w
  passes s s' i false h h' e w z = Tracks-Good params whole s h

  calls_tool :
      (s s' : Constrained) (i : StreamItem) (b : Bool)
      → Tracks params whole s
      → i.kind ≡ tool_call
      → Fine s (if b then (i ∷ [], some s') else ([], none))
  calls_tool s s' i true h e =
      silent s (i ∷ constrain_from taken params s' items) h
        (hears i tool_call (constrain_from taken params s' items) e)
  calls_tool s s' i false h e = Tracks-Good params whole s h

  unless :
      (s : Constrained) (b : Bool) (x y : List StreamItem × Option Constrained)
      → b ≡ false
      → Fine s y
      → Fine s (if b then x else y)
  unless s true x y e f = absurd (cc)
  unless s false x y e f = f

  one_round :
      (s : Constrained) (i : StreamItem)
      → Tracks params whole s
      → Prefix (s.accumulated ++ text_before_tool (i ∷ items)) whole
      → Fine s (constrain_item taken params s i items)
  unfolding constrain_item constrain_kind
  one_round s i h w = by_kind i.kind refl
    where
      s' : Constrained
      s' = record s { seen = absorb s.seen i.usage }

      h' : Tracks params whole s'
      h' = record { begun = h.begun; within = h.within; allowed = h.allowed; no_tool = h.no_tool }

      within :
          (k : Kind)
          → i.kind ≡ k
          → Prefix (s.accumulated ++ heard k i.text_of (text_before_tool items)) whole
      within k e = subst (λ t. Prefix (s.accumulated ++ t) whole) (hears i k items e) w

      heard_so_far :
          i.kind ≡ delta → Prefix ((s.accumulated ++ i.text_of) ++ text_before_tool items) whole
      heard_so_far e =
          subst (λ t. Prefix t whole)
            (sym (append_assoc s.accumulated i.text_of (text_before_tool items))) (within delta e)

      by_kind : (k : Kind) → i.kind ≡ k → Fine s (constrain_kind taken params s' i items k)
      by_kind delta e =
          unless s s.tool_seen (pass taken s' i) (constrain_delta taken params s' i items) h.no_tool
            (goes_on s (s.accumulated ++ i.text_of) (constrain_delta taken params s' i items).0
              (constrain_delta taken params s' i items).1
              (constrain_delta-Continues taken params whole s' i items h' (
                Prefix-trans (s.accumulated ++ i.text_of)
                  ((s.accumulated ++ i.text_of) ++ text_before_tool items) whole
                  (Prefix-append (s.accumulated ++ i.text_of) (text_before_tool items))
                  (heard_so_far e)))
              (heard_so_far e))
      by_kind tool_call e =
          calls_tool s (record s' { tool_seen = true; sent = s.sent + 1 }) i (taken s.sent) h e
      by_kind error e = ends s i error (taken s.sent) h e refl
      by_kind done e =
          ends s (finished_item s' i) done (taken s.sent) h (finished_item_done s' i e) refl
      by_kind (other_kind k) e =
          passes s (record s' { sent = s.sent + 1 }) i (taken s.sent) h
            (record {
              begun = h.begun;
              within = h.within;
              allowed = h.allowed;
              no_tool = h.no_tool;
            })
            refl (within (other_kind k) e) (λ rest. hears i (other_kind k) rest e)

constrain_from-Good :
    (taken : ℕ → Bool) (params : Fields) (whole : Text) (items : List StreamItem)
    → Onward taken params whole items
unfolding constrain_from
constrain_from-Good taken params whole [] s h w = Tracks-Good params whole s h
constrain_from-Good taken params whole (i ∷ items) s h w =
    one_round taken params whole items (constrain_from-Good taken params whole items) s i h w

nothing-StopFree : (stops : List Text) → StopFree stops []
unfolding index_of
nothing-StopFree [] = tt
nothing-StopFree ([] ∷ stops) = ((λ e. absurd (cc)), nothing-StopFree stops)
nothing-StopFree ((d ∷ t) ∷ stops) = ((λ e. refl), nothing-StopFree stops)

-- Up to the first tool call, the text that a constrained stream sends is a start of the text that
-- comes in, contains no stop sequence of the request and has at most as many tokens as the request
-- allows, where it sets a limit; wherever the reader of the stream goes away.
pub apply_stream_output_constraints-Good :
    (taken : ℕ → Bool) (params : Fields) (items : List StreamItem)
    → Good params
        (text_before_tool items)
        (text_before_tool (apply_stream_output_constraints taken params items))
unfolding apply_stream_output_constraints
apply_stream_output_constraints-Good taken params items =
    constrain_from-Good taken params (text_before_tool items) items at_start
      (record {
        begun = tt;
        within = tt;
        allowed = record {
          stop_free = nothing-StopFree (stops_of (get (text "stop") params));
          short = λ p. omega arith;
        };
        no_tool = refl;
      })
      (Prefix-refl (text_before_tool items))
