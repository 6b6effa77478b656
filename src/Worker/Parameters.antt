-- ===== src/Worker/Parameters.antt =====
-- The match that a round returns has the parameters that `NewMatch` has made.
use match_mind.Allocator.{allocate}
use match_mind.Base.{List, Result, Result-cases, ap, arith, inl, inr, ok, sym, ◌∙◌, ◌≡◌}
use match_mind.Clock.{Time}
use match_mind.Match.{start_allocation, mark_ready, Match, NewMatchParams, new_match}
use match_mind.MatchService.{World}
use match_mind.MatchStore.{create, update}
use match_mind.Text.{Text, text_eq}
use match_mind.TicketStore.{reserve_all}
use match_mind.Worker.{RoundContexts, allocate_match, open_match, settle}
use match_mind.Worker.Opening.{assign_match-Written}

-- The match that is returned has the parameters of the new one.
allocate_match-params :
    (ctx : RoundContexts) (w w' : World) (id : Text) (k m : Match) (token : Result Text)
    (now : Time)
    → allocate_match ctx w id k token now ≡ (w', ok m)
    → m.params ≡ k.params
unfolding allocate_match mark_ready
allocate_match-params ctx w w' id k m token now h =
    elim (Result-cases (allocate ctx.allocating w.servers k.id k.server_region token)) [
      | inr (e, refused) ↦ absurd (ground arith)
      | inl ((servers, a), granted) ↦ elim (Result-cases (mark_ready k a.address a.token now)) [
        | inr (e, refused) ↦ absurd (ground arith)
        | inl (n, is_ready) ↦
            let (same, kept, written) =
              assign_match-Written ctx (record w { servers = servers }) w' id n m now
                (ground arith) in
            let params : n.params ≡ k.params = ground arith in
            ap (λ x. x.params) (sym same) ∙ params
      ]
    ]

open_match-params :
    (ctx : RoundContexts) (w w' : World) (id : Text) (k m : Match) (token : Result Text)
    (now : Time)
    → open_match ctx w id k token now ≡ (w', ok m)
    → m.params ≡ k.params
unfolding open_match start_allocation
open_match-params ctx w w' id k m token now h =
    elim (Result-cases (create ctx.creating w.matches k)) [
      | inr (e, refused) ↦ absurd (ground arith)
      | inl (matches, made) ↦ elim (Result-cases (start_allocation k now)) [
        | inr (e, refused) ↦ absurd (ground arith)
        | inl (n, began) ↦ elim (Result-cases (update ctx.updating matches n)) [
          | inr (e, refused) ↦ absurd (ground arith)
          | inl (matches', stored) ↦
              let params : n.params ≡ k.params = ground arith in
              allocate_match-params ctx (record w { matches = matches' }) w' id n m token now
                (ground arith)
              ∙ params
        ]
      ]
    ]

pub settle-params :
    (ctx : RoundContexts) (w w' : World) (id : Text) (ids : List Text) (expires_at : Time)
    (params : NewMatchParams) (token : Result Text) (now : Time) (m : Match)
    → settle ctx w id ids expires_at params token now ≡ (w', ok m)
    → (k : Match) × (new_match params ≡ ok k) × (m.params ≡ k.params)
unfolding settle
settle-params ctx w w' id ids expires_at params token now m h =
    elim (Result-cases (reserve_all ctx.reserving w.tickets ids id expires_at now)) [
      | inr (e, refused) ↦ absurd (ground arith)
      | inl ((s, ts), taken) ↦ elim (Result-cases (new_match params)) [
        | inr (e, refused) ↦ absurd (ground arith)
        | inl (k, made) ↦ (
          k,
          made,
          open_match-params ctx (record w { tickets = s }) w' id k m token now (ground arith),
        )
      ]
    ]
