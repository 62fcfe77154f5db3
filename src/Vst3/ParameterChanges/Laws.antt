-- ===== src/Vst3/ParameterChanges/Laws.antt =====
-- What the stand-ins for parameter changes carry (src/common/serialization/vst3/param-value-queue.cpp and
-- parameter-changes.cpp): all queues, in order, with all their points.
use wasivst.Prelude.{
  ℕ, suc, ◌+◌, ◌-◌, ◌≡◌, refl, ap, ◌∙◌, Option, some, List, [], ◌∷◌, ◌++◌, arith, length, take,
  replicate, get_elem?, length-append, length-take, length-replicate, append_assoc, append-nil,
}
use wasivst.Prelude.Int.{pos}
use wasivst.Vst3.ParameterChanges.{
  Point, YaParamValueQueue, IparamValueQueue, resize_points, refill, stored, repopulate_queue,
  get_point, add_point, YaParameterChanges, IparameterChanges, resize_queues, refill_queues,
  all_queues, repopulate, write_back_points, write_back_queue, write_back_outputs,
  get_parameter_count, get_parameter_data, found, add_parameter_data, add_point_at, own_changes,
  own_output, no_queue, clear_for_parameter,
}

-- A queue of the other side answers as `q` does.
pub record IsQueue {Q : Type 0} (original : IparamValueQueue Q) (host : Q) (q : YaParamValueQueue)
    : Type 0 where
  pub identifier : original.id_of host ≡ q.parameter_id
  pub count : original.point_count host ≡ length q.queue
  pub point : (i : ℕ) → original.point_at host (pos i) ≡ get_elem? q.queue i

refill_lem :
    (point_at : _ → Option Point) (i : ℕ) (old ps : List Point)
    → length old ≡ length ps
    → ((j : ℕ) → point_at (pos (i + j)) ≡ get_elem? ps j)
    → refill point_at i old ≡ ps
unfolding refill stored
refill_lem point_at i [] [] h points = refl
refill_lem point_at i [] (p ∷ ps) h points = absurd (omega arith)
refill_lem point_at i (o ∷ old) [] h points = absurd (omega arith)
refill_lem point_at i (o ∷ old) (p ∷ ps) h points =
    let first : point_at (pos i) ≡ some p = ap (λ k. point_at (pos k)) (omega arith) ∙ points 0 in
    rw
      (
        first,
        refill_lem point_at (suc i) old ps (omega arith)
            (λ j. ap (λ k. point_at (pos k)) (omega arith) ∙ points (suc j)),
      )
      refl

repopulate_queue_lem :
    {Q : Type 0}
    → (original : IparamValueQueue Q) (host : Q) (old q : YaParamValueQueue)
    → IsQueue original host q
    → repopulate_queue original host old ≡ q
unfolding repopulate_queue resize_points
repopulate_queue_lem original host old q h =
    let n = original.point_count host in
    let zeros = replicate (n - length old.queue) (record { sample_offset = pos 0; value = 0 }) in
    let same : length (take n old.queue ++ zeros) ≡ length q.queue = omega (
      arith,
      h.count,
      length-append (take n old.queue) zeros,
      length-take n old.queue,
      length-replicate {A = Point} (n - length old.queue)
          (record { sample_offset = pos 0; value = 0 }),
    ) in
    rw
      (
        h.identifier,
        refill_lem (original.point_at host) 0 (take n old.queue ++ zeros) q.queue same
            (λ j. ap (λ k. original.point_at host (pos k)) (omega arith) ∙ h.point j),
      )
      refl

-- The other side's changes answer as a list of queues does.
pub record IsChanges {T Q : Type 0} (original : IparameterChanges T Q) (host : T)
    (qs : List YaParamValueQueue) : Type 0 where
  pub number : original.parameter_count host ≡ length qs
  pub element :
      (i : ℕ) (q : YaParamValueQueue)
      → get_elem? qs i ≡ some q
      → (data_of : Q) × (original.parameter_data host i ≡ some data_of)
        × IsQueue original.queue_of data_of q

refill_queues_lem :
    {T Q : Type 0}
    → (original : IparameterChanges T Q) (host : T) (i : ℕ) (old qs : List YaParamValueQueue)
    → length old ≡ length qs
    → ((j : ℕ) (q : YaParamValueQueue)
        → get_elem? qs j ≡ some q
        → (data_of : Q) × (original.parameter_data host (i + j) ≡ some data_of)
          × IsQueue original.queue_of data_of q)
    → refill_queues original host i old ≡ some qs
unfolding refill_queues
refill_queues_lem original host i [] [] h element = refl
refill_queues_lem original host i [] (q ∷ qs) h element = absurd (omega arith)
refill_queues_lem original host i (o ∷ old) [] h element = absurd (omega arith)
refill_queues_lem original host i (o ∷ old) (q ∷ qs) h element =
    let (data_of, at, same) = element 0 q refl in
    let first : original.parameter_data host i ≡ some data_of =
      ap (original.parameter_data host) (omega arith) ∙ at in
    let rest : refill_queues original host (suc i) old ≡ some qs =
      refill_queues_lem original host (suc i) old qs (omega arith) (λ j q' e.
        let (d, at', same') = element (suc j) q' e in
        (d, ap (original.parameter_data host) (omega arith) ∙ at', same')) in
    rw (first, rest, repopulate_queue_lem original.queue_of data_of o q same, refill_queues) refl

-- Filled from changes that answer as a list of queues does, whatever was there before, the stand-in
-- holds just these queues with their points, and no null pointer has been followed.
pub repopulate_copies :
    {T Q : Type 0}
    → (original : IparameterChanges T Q) (host : T) (qs : List YaParamValueQueue)
      (old : YaParameterChanges)
    → IsChanges original host qs
    → repopulate original host old ≡ some (record { queues = qs })
unfolding repopulate resize_queues all_queues
repopulate_copies original host qs old h =
    let n = original.parameter_count host in
    let fresh = replicate (n - length old.queues) no_queue in
    let same : length (take n old.queues ++ fresh) ≡ length qs = omega (
      arith,
      h.number,
      length-append (take n old.queues) fresh,
      length-take n old.queues,
      length-replicate {A = YaParamValueQueue} (n - length old.queues) no_queue,
    ) in
    rw
      (refill_queues_lem original host 0 (take n old.queues ++ fresh) qs same (λ j q e.
        let (d, at, s) = h.element j q e in
        (d, ap (original.parameter_data host) (omega arith) ∙ at, s)))
      refl

-- The stand-in answers as its own list of queues.
pub own_changes-IsChanges : (c : YaParameterChanges) → IsChanges own_changes c c.queues
unfolding get_parameter_count get_parameter_data found get_point
own_changes-IsChanges c = record {
  number = refl;
  element = λ i q e.
      (q, rw (e, own_changes) refl, record { identifier = refl; count = refl; point = λ j. refl });
}

add_point_at_lem :
    (qs : List YaParamValueQueue) (p : Point) (q : YaParamValueQueue)
    → add_point_at (length qs) p (qs ++ q ∷ []) ≡ qs ++ record q { queue = q.queue ++ p ∷ [] } ∷ []
unfolding add_point_at add_point
add_point_at_lem [] p q = refl
add_point_at_lem (r ∷ qs) p q = ap (λ rest. r ∷ rest) (add_point_at_lem qs p q)

write_back_points_lem :
    (ps : List Point) (qs : List YaParamValueQueue) (q : YaParamValueQueue)
    → write_back_points own_output (length qs) ps (record { queues = qs ++ q ∷ [] })
      ≡ record { queues = qs ++ record q { queue = q.queue ++ ps } ∷ [] }
unfolding write_back_points
write_back_points_lem [] qs q = rw (append-nil q.queue) refl
write_back_points_lem (p ∷ ps) qs q = rw (add_point_at_lem qs p q) (
    write_back_points_lem ps qs (record q { queue = q.queue ++ p ∷ [] })
    ∙ rw (append_assoc q.queue (p ∷ []) ps) refl)

-- Written back to changes of the same kind, the queues stand behind those that are there, in order
-- and each with all its points.
pub write_back_appends :
    (qs : List YaParamValueQueue) (c : YaParameterChanges)
    → write_back_outputs own_output qs c ≡ record { queues = c.queues ++ qs }
unfolding write_back_outputs write_back_queue add_parameter_data clear_for_parameter
write_back_appends [] c = rw (append-nil c.queues) refl
write_back_appends (q ∷ qs) c =
    rw
      (write_back_points_lem q.queue c.queues
        (record { parameter_id = q.parameter_id; queue = [] }))
      (write_back_appends qs (record { queues = c.queues ++ q ∷ [] })
        ∙ rw (append_assoc c.queues (q ∷ []) qs) refl)
