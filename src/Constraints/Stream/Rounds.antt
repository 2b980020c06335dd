-- ===== src/Constraints/Stream/Rounds.antt =====
-- internal/gateway/copilot_sdk_stream.go: one round of the loop of applyStreamOutputConstraints that
-- is given a text.
use ghcp_pool_go.Base.{
  ℕ, ◌+◌, ◌≡◌, refl, Bool, true, false, Option, none, some, List, [], ◌++◌, ◌∙◌, ap, sym,
  append-nil, leb→le, true_ne_false, not, subst, Text, is_empty, Bool-cases, Prefix, Prefix-trans,
  Prefix-append, Prefix-continue, length, inl, inr, leb,
}
use ghcp_pool_go.Constraints.Stream.{
  Constrained, constrained_text, constrain_delta, new_text, terminal, last_if, drain,
}
use ghcp_pool_go.Json.{Fields}
use ghcp_pool_go.Usage.{Usage}
use ghcp_pool_go.Results.{StreamItem}
use ghcp_pool_go.Constraints.Stream.Allowed.{text_before_tool, Allowed, constrained_text-Allowed}

-- comes in.
pub record Tracks (params : Fields) (whole : Text) (s : Constrained) : Type 0 where
  pub begun : Prefix s.emitted s.accumulated
  pub within : Prefix s.accumulated whole
  pub allowed : Allowed params s.emitted
  pub no_tool : s.tool_seen ≡ false

abbrev pub Good : Fields → Text → Text → Type 0
Good params whole e = Allowed params e × Prefix e whole

pub Tracks-Good :
    (params : Fields) (whole : Text) (s : Constrained)
    → Tracks params whole s
    → Good params whole (s.emitted ++ [])
Tracks-Good params whole s h =
    subst (Good params whole) (sym (append-nil s.emitted))
      (h.allowed, Prefix-trans s.emitted s.accumulated whole h.begun h.within)

-- What a round that is given a text has to do.
abbrev pub Continues :
    Fields → Text → Constrained → Text → List StreamItem → Option Constrained → Type 0
Continues params whole s acc out none = Good params whole (s.emitted ++ text_before_tool out)
Continues params whole s acc out (some s') =
    Tracks params whole s'
    × (s'.accumulated ≡ acc)
    × (s.emitted ++ text_before_tool out ≡ s'.emitted)
    × ((rest : List StreamItem)
        → text_before_tool (out ++ rest) ≡ text_before_tool out ++ text_before_tool rest)

-- An item that ends the stream says nothing more.
text_before_tool-last_if :
    (b : Bool) (finish e : Text) (u : Usage)
    → text_before_tool (last_if b (terminal finish e u)) ≡ []
text_before_tool-last_if true finish e u = refl
text_before_tool-last_if false finish e u = refl

module _ (taken : ℕ → Bool) (params : Fields) (whole : Text) (s : Constrained) (i : StreamItem)
    (items : List StreamItem) (h : Tracks params whole s)
    (w : Prefix (s.accumulated ++ i.text_of) whole) where
  abbrev chosen : Text × Text
  chosen = constrained_text params (s.accumulated ++ i.text_of)

  chosen-Good : Good params whole chosen.0
  chosen-Good =
      let (p, a) = constrained_text-Allowed params (s.accumulated ++ i.text_of) in
      (a, Prefix-trans chosen.0 (s.accumulated ++ i.text_of) whole p w)

  quiet-Tracks : Tracks params whole (record s { accumulated = s.accumulated ++ i.text_of })
  quiet-Tracks = record {
    begun =
        Prefix-trans s.emitted s.accumulated (s.accumulated ++ i.text_of) h.begun
          (Prefix-append s.accumulated i.text_of);
    within = w;
    allowed = h.allowed;
    no_tool = h.no_tool;
  }

  spoken-Tracks :
      Tracks params whole (record s {
        accumulated = s.accumulated ++ i.text_of;
        emitted = chosen.0;
        sent = s.sent + 1;
      })
  spoken-Tracks = record {
    begun = (constrained_text-Allowed params (s.accumulated ++ i.text_of)).0;
    within = w;
    allowed = chosen-Good.0;
    no_tool = h.no_tool;
  }

  -- A piece that is sent makes the text sent the one chosen.
  new_text-continues :
      is_empty (new_text chosen.0 s.emitted) ≡ false
      → s.emitted ++ new_text chosen.0 s.emitted ≡ chosen.0
  new_text-continues f = elim (Bool-cases (leb (length s.emitted) (length chosen.0))) [
    | inl y ↦
        rw (new_text, y)
          (Prefix-continue s.emitted chosen.0 (s.accumulated ++ i.text_of) quiet-Tracks.begun
            spoken-Tracks.begun (leb→le (length s.emitted) (length chosen.0) y))
    | inr g ↦ absurd (true_ne_false (rw (new_text, g) at f))
  ]

  abbrev piece : Text
  piece = new_text chosen.0 s.emitted

  said_nothing :
      (b : Bool) (finish e : Text) (u : Usage)
      → Good params whole (s.emitted ++ text_before_tool (last_if b (terminal finish e u)))
  said_nothing b finish e u =
      subst (λ t. Good params whole (s.emitted ++ t)) (sym (text_before_tool-last_if b finish e u))
        (Tracks-Good params whole s h)

  said_piece : is_empty piece ≡ false → s.emitted ++ (piece ++ []) ≡ chosen.0
  said_piece f = ap (λ t. s.emitted ++ t) (append-nil piece) ∙ new_text-continues f

  said_last :
      is_empty piece ≡ false
      → (b : Bool) (finish e : Text) (u : Usage)
      → Good params whole
          (s.emitted ++ (piece ++ text_before_tool (last_if b (terminal finish e u))))
  said_last f b finish e u =
      subst (λ t. Good params whole (s.emitted ++ (piece ++ t)))
        (sym (text_before_tool-last_if b finish e u))
        (subst (Good params whole) (sym (said_piece f)) chosen-Good)

  pub constrain_delta-Continues :
      Continues params whole s
        (s.accumulated ++ i.text_of)
        (constrain_delta taken params s i items).0
        (constrain_delta taken params s i items).1
  unfolding constrain_delta
  constrain_delta-Continues = elim (Bool-cases (is_empty piece)) [
    | inl silent ↦ elim (Bool-cases (is_empty chosen.1)) [
      | inl on ↦
          rw (constrain_delta, silent)
            (rw on (quiet-Tracks, refl, append-nil s.emitted, λ rest. refl))
      | inr off ↦
          rw (constrain_delta, silent)
            (rw off (said_nothing (taken s.sent) chosen.1 s.emitted (drain s.seen items)))
    ]
    | inr loud ↦ elim (Bool-cases (not (taken s.sent))) [
      | inl shut ↦ rw (constrain_delta, loud) (rw shut (Tracks-Good params whole s h))
      | inr sent ↦ elim (Bool-cases (is_empty chosen.1)) [
        | inl on ↦
            rw (constrain_delta, loud)
              (rw sent (
                rw on (
                  spoken-Tracks,
                  refl,
                  said_piece loud,
                  λ rest. ap (λ t. t ++ text_before_tool rest) (sym (append-nil piece)),
                )))
        | inr off ↦
            rw (constrain_delta, loud)
              (rw sent (
                rw off
                  (said_last loud (taken (s.sent + 1)) chosen.1 chosen.0 (drain s.seen items))))
      ]
    ]
  ]
