-- ===== src/Notifications/Draining.antt =====
-- The retry loop ends.
use phantom_share.Prelude.{
  Bool-cases, inl, inr, ℕ, zero, suc, ◌+◌, ◌*◌, ◌≤◌, ◌<◌, ◌≡◌, refl, ap, ◌∙◌, true, false, some,
  List, [], ◌∷◌, arith, map, All,
}
use phantom_share.Notifications.{
  Kind, drain, retry_next, run, event_of, Round, next_round, has_failed, dlq_of, routing_key_of,
}
use phantom_share.Notifications.Messages.{Json, Smtp, Station}
use phantom_share.Notifications.Lanes.{Lanes, station, lane_of, spec_run, retry_lane}
use phantom_share.Notifications.Refinement.{
  retry_next_lanes, map_option, has_failed_lanes, is_failing,
}
use phantom_share.Notifications.Rounds.{rounds_of, seconds_of, left, retry_lane-Fewer}
use phantom_share.Notifications.Meantime.{views_in, views_of, spec_run-Meantime}
use phantom_share.Notifications.Runs.{run_lanes}

module _ (json : Json) (smtp : Smtp) where
  drain_stop :
      (fuel : ℕ) (k : Kind) (rounds : List Round) (s : Station)
      → has_failed k s ≡ false
      → drain json smtp (suc fuel) k rounds s ≡ (true, s)
  unfolding drain
  drain_stop fuel k rounds s h = rw (drain, h) refl

  drain_go :
      (fuel : ℕ) (k : Kind) (rounds : List Round) (s : Station) {s' : Station}
      → has_failed k s ≡ true
      → retry_next
          (dlq_of k)
          (routing_key_of k)
          (next_round rounds).0.accepted
          (run json smtp (map event_of (next_round rounds).0.meanwhile) s)
        ≡ some (true, s')
      → drain json smtp (suc fuel) k rounds s ≡ drain json smtp fuel k (next_round rounds).1 s'
  unfolding drain
  drain_go fuel k rounds s h e = rw (drain, h, e) refl

  abbrev IsAccepted : Round → Type 0
  IsAccepted r = r.accepted ≡ true

  -- What the next round takes from the list.
  next_round-All :
      (rounds : List Round)
      → All IsAccepted rounds
      → IsAccepted (next_round rounds).0
        × All IsAccepted (next_round rounds).1
        × (views_in (next_round rounds).0.meanwhile + views_of (next_round rounds).1
            ≡ views_of rounds)
  next_round-All [] h = (refl, tt, refl)
  next_round-All (r ∷ rounds) (h, hs) = (h, hs, refl)

  abbrev pub Ends : ℕ → Kind → List Round → Lanes → Type 0
  Ends fuel k rounds x =
      (s : Station) × (drain json smtp fuel k rounds (station x) ≡ (true, s))
      × (has_failed k s ≡ false)
      × (s.clock ≤ x.clock + left seconds_of (lane_of k x) + 7 * views_of rounds)

  -- The lanes after a round that goes on.
  retry_next-run :
      (k : Kind) (r : Round) (x y : Lanes)
      → IsAccepted r
      → retry_lane k true (spec_run json smtp (map event_of r.meanwhile) x) ≡ some (true, y)
      → retry_next
          (dlq_of k)
          (routing_key_of k)
          r.accepted
          (run json smtp (map event_of r.meanwhile) (station x))
        ≡ some (true, station y)
  retry_next-run k r x y taken e =
      let z = spec_run json smtp (map event_of r.meanwhile) x in
      rw (run_lanes json smtp (map event_of r.meanwhile) x, taken)
        (retry_next_lanes k true z ∙ ap map_option e)

  -- The inner loop of the retries ends by its `break`, with its dead-letter queue empty, where the
  -- exchange takes each message that a round publishes, and what goes on while the rounds sleep is
  -- listed: the consumers may take any messages and fail on them, and handlers may tell of views. The
  -- fuel is to be more than the rounds that are left: four for a new message and one less for each
  -- attempt, and four for each of those views. The loop sleeps no longer than the seconds that are
  -- left, seven for a new message, and seven for each of those views.
  pub drain-Ends :
      (fuel : ℕ) (k : Kind) (rounds : List Round) (x : Lanes)
      → All IsAccepted rounds
      → left rounds_of (lane_of k x) + 4 * views_of rounds < fuel
      → Ends fuel k rounds x
  drain-Ends zero k rounds x taken h = absurd (omega arith)
  drain-Ends (suc fuel) k rounds x taken h = elim (Bool-cases (is_failing (lane_of k x).failed)) [
    | inr empty ↦
        let e = has_failed_lanes k x ∙ empty in
        (station x, drain_stop fuel k rounds (station x) e, e, omega arith)
    | inl some_left ↦
        let (accepted, all, views) = next_round-All rounds taken in
        let z = spec_run json smtp (map event_of (next_round rounds).0.meanwhile) x in
        let (rounds', seconds', same, failing) =
          spec_run-Meantime json smtp k (next_round rounds).0.meanwhile x in
        let (y, e, (fewer, sooner)) = retry_lane-Fewer k z (failing some_left) in
        let (s, ends, done, soon) =
          drain-Ends fuel k (next_round rounds).1 y all (omega (arith, fewer, rounds', views)) in
        (
          s,
          drain_go fuel k rounds (station x) (has_failed_lanes k x ∙ some_left)
                (retry_next-run k (next_round rounds).0 x y accepted e)
              ∙ ends,
          done,
          omega (arith, soon, sooner, seconds', same, views),
        )
  ]
