-- ===== src/LoadClient/Pump/Frames.antt =====
-- The frames of one stream that `PumpSends` chooses: a frame for each number that
-- `next_sequence` goes through, in its order.
use proto_test_msquic.Prelude.{
  ℕ, zero, suc, ◌+◌, ◌%◌, ◌^◌, ◌<◌, ◌≡◌, refl, sym, ap, ◌∙◌, inl, inr, Bool, true, false, ◌&&◌, not,
  Bool-cases, Option-cases, List, [], ◌∷◌, ◌++◌, some, map, map-append, length, length-append, All,
  All-append, Map, put, some_injective, append-nil, find_or, find_or-put_self, find_or-put_ne,
  ==_iff, leb, ltb, ◌==◌, if◌then◌else◌, arith,
}
use proto_test_msquic.Prelude.Float.{Float64}
use proto_test_msquic.Config.Profiles.{StreamProfile}
use proto_test_msquic.Config.Load.{AppConfig, is_empty}
use proto_test_msquic.Config.Load.Active.{should_send_on_connection}
use proto_test_msquic.Frame.{Bytes}
use proto_test_msquic.Stats.{add64}
use proto_test_msquic.LoadClient.{ClientStream, stream_id_from_ordinal}
use proto_test_msquic.LoadClient.Message.{make_frame}
use proto_test_msquic.LoadClient.Pump.{
  Pump, new_stream, with_profile, inflight, push_frame, put_stream, pace_stream, attempt_profiled,
  attempt_stream, select_stream, pace_connection, pump_loop,
}
use proto_test_msquic.LoadClient.Pump.Bounds.{Attempt-cases}

-- The frames of a stream among those of all, in their order.
unfoldable pub of_stream : ℕ → List (ℕ × Bytes) → List Bytes
of_stream i [] = []
of_stream i ((j, w) ∷ sends) = let rest = of_stream i sends in if j == i then w ∷ rest else rest

-- What a frame is made of beside its size.
pub record Made : Type 0 where
  pub sequence : ℕ
  pub made_ns : ℕ

pub record IsMade (m : Made) : Type 0 where
  pub sequence_fits : m.sequence < 2 ^ 64
  pub made_fits : m.made_ns < 2 ^ 64

abbrev pub frame_of : ℕ → Made → Bytes
frame_of size m = make_frame size m.sequence m.made_ns

of_stream-snoc :
    (i j : ℕ) (w : Bytes) (sends : List (ℕ × Bytes))
    → of_stream i (sends ++ (j, w) ∷ []) ≡ of_stream i sends ++ (if j == i then w ∷ [] else [])
unfolding of_stream
of_stream-snoc i j w [] = ground arith
of_stream-snoc i j w ((k, v) ∷ sends) = elim (Bool-cases (k == i)) [
  | inl e ↦ rw (e, of_stream) (ap (λ (xs : List Bytes). v ∷ xs) (of_stream-snoc i j w sends))
  | inr e ↦ rw (e, of_stream) (of_stream-snoc i j w sends)
]

module _ (F : Float64) (clock : ℕ → ℕ) (config : AppConfig) (timely : (k : ℕ) → clock k < 2 ^ 64)
    (i : ℕ) (profile : StreamProfile) (named : is_empty profile.name ≡ false) (n : ℕ) where
  stream_in : Pump F → ClientStream F.Double
  stream_in p = find_or i (new_stream F) p.connection.streams

  -- The frames of the stream bear the numbers from `n` on, as many as it has counted.
  pub record IsQueued (p : Pump F) : Type 0 where
    pub made : List Made
    pub valid : All IsMade made
    pub frames : of_stream i p.sends ≡ map (frame_of profile.message_size) made
    pub counted :
        (find_or i (new_stream F) p.connection.streams).next_sequence ≡ add64 n (length made)
    pub same_profile : (find_or i (new_stream F) p.connection.streams).profile ≡ profile

  same-IsQueued :
      (p q : Pump F)
      → q.sends ≡ p.sends
      → (stream_in q).next_sequence ≡ (stream_in p).next_sequence
      → (stream_in q).profile ≡ (stream_in p).profile
      → IsQueued p
      → IsQueued q
  unfolding stream_in
  same-IsQueued p q a b c v = record {
    made = v.made;
    valid = v.valid;
    frames = ap (of_stream i) a ∙ v.frames;
    counted = b ∙ v.counted;
    same_profile = c ∙ v.same_profile;
  }

  -- A stream to be stored under `k` is, where `k` is the stream's, as it was but for its time.
  Agrees : ℕ → ClientStream F.Double → Pump F → Type 0
  Agrees k stream p =
      (k == i) ≡ true
      → (stream.next_sequence ≡ (stream_in p).next_sequence)
        × (stream.profile ≡ (stream_in p).profile)

  put-IsQueued :
      (k : ℕ) (stream : ClientStream F.Double) (p : Pump F) (reads : ℕ)
      → Agrees k stream p
      → IsQueued p
      → IsQueued (put_stream F k stream (record p { clock_reads = reads }))
  unfolding Agrees stream_in
  put-IsQueued k stream p reads a v =
      let q = put_stream F k stream (record p { clock_reads = reads }) in
      elim (Bool-cases (k == i)) [
        | inl e ↦
            let same : k ≡ i = (==_iff k i).0 e in
            let new : stream_in q ≡ stream =
              ap (λ j. find_or j (new_stream F) (q.connection.streams)) (sym same)
              ∙ find_or-put_self k stream (new_stream F) p.connection.streams in
            same-IsQueued p q refl
              (ap (λ (x : ClientStream F.Double). x.next_sequence) new ∙ (a e).0)
              (ap (λ (x : ClientStream F.Double). x.profile) new ∙ (a e).1) v
        | inr e ↦
            let new : stream_in q ≡ stream_in p =
              find_or-put_ne k i stream (new_stream F) p.connection.streams e in
            same-IsQueued p q refl (ap (λ (x : ClientStream F.Double). x.next_sequence) new)
              (ap (λ (x : ClientStream F.Double). x.profile) new) v
      ]

  next_count : (k : ℕ) → add64 (add64 n k) 1 ≡ add64 n (k + 1)
  next_count k = omega arith

  add64-lt : (a b : ℕ) → add64 a b < 2 ^ 64
  add64-lt a b = omega arith

  push-IsQueued :
      (ordinal : ℕ) (stream : ClientStream F.Double) (p : Pump F) (reads : ℕ)
      → Agrees (stream_id_from_ordinal config ordinal) stream p
      → IsQueued p
      → IsQueued (push_frame F clock config ordinal stream (record p { clock_reads = reads }))
  unfolding Agrees stream_in push_frame
  push-IsQueued ordinal stream p reads a v =
      let k = stream_id_from_ordinal config ordinal in
      let after = record stream { next_sequence = add64 stream.next_sequence 1 } in
      let w = make_frame stream.profile.message_size stream.next_sequence (clock reads) in
      let q = push_frame F clock config ordinal stream (record p { clock_reads = reads }) in
      elim (Bool-cases (k == i)) [
        | inl e ↦
            let same : k ≡ i = (==_iff k i).0 e in
            let new : stream_in q ≡ after =
              ap (λ j. find_or j (new_stream F) (put k after p.connection.streams)) (sym same)
              ∙ find_or-put_self k after (new_stream F) p.connection.streams in
            let number : stream.next_sequence ≡ add64 n (length v.made) = (a e).0 ∙ v.counted in
            let known : stream.profile ≡ profile = (a e).1 ∙ v.same_profile in
            let m : Made = record { sequence = stream.next_sequence; made_ns = clock reads } in
            record {
              made = v.made ++ m ∷ [];
              valid = All-append IsMade v.made (m ∷ []) v.valid (
                record {
                  sequence_fits = rw number (add64-lt n (length v.made));
                  made_fits = timely reads;
                },
                tt,
              );
              frames =
                  of_stream-snoc i k w p.sends
                  ∙ rw e (
                      ap (λ (xs : List Bytes). xs ++ w ∷ []) v.frames
                      ∙ ap
                          (λ (y : StreamProfile).
                            map (frame_of profile.message_size) v.made
                            ++ make_frame y.message_size stream.next_sequence (clock reads) ∷ [])
                          known
                      ∙ sym (map-append (frame_of profile.message_size) v.made (m ∷ [])));
              counted =
                  ap (λ (x : ClientStream F.Double). x.next_sequence) new
                  ∙ ap (λ x. add64 x 1) number
                  ∙ next_count (length v.made)
                  ∙ ap (add64 n) (sym (length-append v.made (m ∷ [])));
              same_profile = ap (λ (x : ClientStream F.Double). x.profile) new ∙ known;
            }
        | inr e ↦
            let new : stream_in q ≡ stream_in p =
              find_or-put_ne k i after (new_stream F) p.connection.streams e in
            record {
              made = v.made;
              valid = v.valid;
              frames =
                  of_stream-snoc i k w p.sends ∙ rw e (append-nil (of_stream i p.sends) ∙ v.frames);
              counted = ap (λ (x : ClientStream F.Double). x.next_sequence) new ∙ v.counted;
              same_profile = ap (λ (x : ClientStream F.Double). x.profile) new ∙ v.same_profile;
            }
      ]

  pace-Agrees :
      (k : ℕ) (stream : ClientStream F.Double) (p : Pump F) (reads : ℕ)
      → Agrees k stream p
      → Agrees k (pace_stream F clock config stream reads).1.0 p
  unfolding Agrees pace_stream
  pace-Agrees k stream p reads a = λ e. elim (Bool-cases (ltb 0 stream.profile.send_pps)) [
    | inl h ↦ rw (h, pace_stream) (a e)
    | inr h ↦ rw (h, pace_stream) (a e)
  ]

  attempt_profiled-IsQueued :
      (ordinal : ℕ) (stream : ClientStream F.Double) (p : Pump F)
      → Agrees (stream_id_from_ordinal config ordinal) stream p
      → IsQueued p
      → IsQueued (attempt_profiled F clock config ordinal stream p).0
  unfolding attempt_profiled
  attempt_profiled-IsQueued ordinal stream p a v =
      let g = pace_stream F clock config stream p.clock_reads in
      let k = stream_id_from_ordinal config ordinal in
      let b = pace-Agrees k stream p p.clock_reads a in
      elim (Bool-cases (leb stream.profile.max_inflight (inflight F stream))) [
        | inl e ↦ rw (e, attempt_profiled) (put-IsQueued k stream p p.clock_reads a v)
        | inr e ↦ elim (Bool-cases g.0) [
          | inl h ↦ rw (e, h, attempt_profiled) (push-IsQueued ordinal g.1.0 p g.1.1 b v)
          | inr h ↦ rw (e, h, attempt_profiled) (put-IsQueued k g.1.0 p g.1.1 b v)
        ]
      ]

  attempt_stream-IsQueued :
      (ordinal : ℕ) (p : Pump F) → IsQueued p → IsQueued (attempt_stream F clock config ordinal p).0
  unfolding attempt_stream with_profile Agrees stream_in
  attempt_stream-IsQueued ordinal p v =
      let k = stream_id_from_ordinal config ordinal in
      let stream = find_or k (new_stream F) p.connection.streams in
      let mine : (k == i) ≡ true → stream ≡ stream_in p =
        λ e. ap (λ j. find_or j (new_stream F) p.connection.streams) ((==_iff k i).0 e) in
      elim (Option-cases (with_profile F config ordinal stream)) [
        | inl h ↦
            rw (h, attempt_stream)
              (put-IsQueued k stream p p.clock_reads
                (λ e. (
                  ap (λ (x : ClientStream F.Double). x.next_sequence) (mine e),
                  ap (λ (x : ClientStream F.Double). x.profile) (mine e),
                ))
                v)
        | inr (s, h) ↦
            let agree : Agrees k s p = λ e.
              let known : is_empty stream.profile.name ≡ false =
                ap (λ (x : ClientStream F.Double). is_empty x.profile.name) (mine e)
                ∙ ap (λ (x : StreamProfile). is_empty x.name) v.same_profile
                ∙ named in
              let kept : with_profile F config ordinal stream ≡ some stream =
                rw (known, with_profile) refl in
              let same : s ≡ stream_in p = some_injective (sym h ∙ kept) ∙ mine e in
              (
                ap (λ (x : ClientStream F.Double). x.next_sequence) same,
                ap (λ (x : ClientStream F.Double). x.profile) same,
              ) in
            rw (h, attempt_stream) (attempt_profiled-IsQueued ordinal s p agree v)
      ]

  select_stream-IsQueued :
      (left attempt : ℕ) (p : Pump F)
      → IsQueued p
      → IsQueued (select_stream F clock config left attempt p).0
  unfolding select_stream
  select_stream-IsQueued zero attempt p v = v
  select_stream-IsQueued (suc left) attempt p v =
      let ordinal =
        (p.connection.next_send_stream_ordinal + attempt) % 2 ^ 32 % config.stream_count in
      let r = attempt_stream F clock config ordinal p in
      let one = attempt_stream-IsQueued ordinal p v in
      elim (Attempt-cases r.1) [
        | inl e ↦ rw (e, select_stream) one
        | inr (inl e) ↦ rw (e, select_stream) (select_stream-IsQueued left (attempt + 1) r.0 one)
        | inr (inr (x, e)) ↦ rw (e, select_stream) one
      ]

  pace_connection-IsQueued :
      (p : Pump F) → IsQueued p → IsQueued (pace_connection F clock config p).1
  unfolding pace_connection stream_in
  pace_connection-IsQueued p v =
      let q = (pace_connection F clock config p).1 in
      let a : q.connection.streams ≡ p.connection.streams = ground arith in
      let b : q.sends ≡ p.sends = ground arith in
      same-IsQueued p q b
        (ap (λ (x : Map (ClientStream F.Double)). (find_or i (new_stream F) x).next_sequence) a)
        (ap (λ (x : Map (ClientStream F.Double)). (find_or i (new_stream F) x).profile) a) v

  pub pump_loop-IsQueued :
      (connection_id max_messages : ℕ) (stop_sending : Bool) (fuel : ℕ) (p : Pump F)
      → IsQueued p
      → IsQueued (pump_loop F clock config connection_id max_messages stop_sending fuel p).0
  unfolding pump_loop
  pump_loop-IsQueued connection_id max_messages stop_sending zero p v = v
  pump_loop-IsQueued connection_id max_messages stop_sending (suc fuel) p v =
      let g = pace_connection F clock config p in
      let r = select_stream F clock config config.stream_count 0 g.1 in
      let start = pace_connection-IsQueued p v in
      let one = select_stream-IsQueued config.stream_count 0 g.1 start in
      elim (Bool-cases (
        should_send_on_connection config connection_id
        && (ltb (length p.sends) max_messages && not stop_sending))) [
          | inr e ↦ rw (e, pump_loop) v
          | inl e ↦ elim (Bool-cases g.0) [
            | inr h ↦ rw (e, h, pump_loop) start
            | inl h ↦ elim (Attempt-cases r.1) [
              | inl t ↦
                  rw (e, h, t, pump_loop)
                    (pump_loop-IsQueued connection_id max_messages stop_sending fuel r.0 one)
              | inr (inl t) ↦ rw (e, h, t, pump_loop) one
              | inr (inr (x, t)) ↦ rw (e, h, t, pump_loop) one
            ]
          ]
        ]
