-- ===== src/Vst3/ParameterChanges.antt =====
-- src/common/serialization/vst3/param-value-queue.{h,cpp} and parameter-changes.{h,cpp}: the changes
-- of parameters during a block, as queues of points. A point's value is the bit pattern of a double.
-- Counts that an interface returns are taken not to be negative. A pointer to a queue of an
-- object is the index of that queue, so that points added through it arrive in the object.
pub mod Laws
use wasivst.Prelude.{
  ℕ, zero, suc, ◌-◌, ◌+◌, Option, none, some, List, [], ◌∷◌, ◌++◌, length, take, replicate,
  get_elem?,
}
use wasivst.Prelude.Int.{ℤ, pos, negsuc}

pub record Point : Type 0 where
  pub sample_offset : ℤ
  pub value : ℕ

pub record YaParamValueQueue : Type 0 where
  pub parameter_id : ℕ
  pub queue : List Point

-- What the bridge reads from a queue of the other side, whose state is `Q`; `none` is a failed call of
-- `getPoint`, which leaves its arguments.
pub record IparamValueQueue (Q : Type 0) : Type 0 where
  pub id_of : Q → ℕ
  pub point_count : Q → ℕ
  pub point_at : Q → ℤ → Option Point

unfoldable pub clear_for_parameter : ℕ → YaParamValueQueue → YaParamValueQueue
clear_for_parameter id q = record { parameter_id = id; queue = [] }

-- `queue_.resize(n)`: the points that are there stay, and others are value-initialized.
unfoldable pub resize_points : ℕ → List Point → List Point
resize_points n ps =
    take n ps ++ replicate (n - length ps) (record { sample_offset = pos 0; value = 0 })

stored : Option Point → Point → Point
stored none p = p
stored (some q) p = q

-- The loop from the index `i` on.
unfoldable pub refill : (ℤ → Option Point) → ℕ → List Point → List Point
unfolding stored
refill point_at i [] = []
refill point_at i (p ∷ ps) = stored (point_at (pos i)) p ∷ refill point_at (suc i) ps

module _ {Q : Type 0} where
  unfoldable pub repopulate_queue : IparamValueQueue Q → Q → YaParamValueQueue → YaParamValueQueue
  unfolding resize_points refill
  repopulate_queue original host q = record {
    parameter_id = original.id_of host;
    queue = refill (original.point_at host) 0 (resize_points (original.point_count host) q.queue);
  }

unfoldable pub get_point : YaParamValueQueue → ℤ → Option Point
get_point q (pos i) = get_elem? q.queue i
get_point q (negsuc i) = none

-- `addPoint`, which returns the point's index.
unfoldable pub add_point : Point → YaParamValueQueue → ℕ × YaParamValueQueue
add_point p q = (length q.queue, record q { queue = q.queue ++ p ∷ [] })

abbrev pub own_queue : IparamValueQueue YaParamValueQueue
own_queue = record {
  id_of = λ q. q.parameter_id;
  point_count = λ q. length q.queue;
  point_at = get_point;
}

pub record YaParameterChanges : Type 0 where
  pub queues : List YaParamValueQueue

-- What the bridge reads from the other side's changes, whose state is `T`; `none` is a null pointer.
pub record IparameterChanges (T Q : Type 0) : Type 0 where
  pub queue_of : IparamValueQueue Q
  pub parameter_count : T → ℕ
  pub parameter_data : T → ℕ → Option Q

-- What the bridge writes to: a pointer to a new queue, or null, and points added behind a pointer.
pub record OutputChanges (T : Type 0) : Type 0 where
  pub new_queue : ℕ → T → Option ℕ × T
  pub new_point : ℕ → Point → T → T

unfoldable pub clear : YaParameterChanges → YaParameterChanges
clear c = record { queues = [] }

abbrev pub no_queue : YaParamValueQueue
no_queue = record { parameter_id = 0; queue = [] }

-- `queues_.resize(n)`: old queues are kept, to be refilled.
unfoldable pub resize_queues : ℕ → List YaParamValueQueue → List YaParamValueQueue
resize_queues n qs = take n qs ++ replicate (n - length qs) no_queue

module _ {T Q : Type 0} (original : IparameterChanges T Q) where
  -- The loop from the index `i` on; `none` where a null pointer is followed.
  unfoldable pub refill_queues : T → ℕ → List YaParamValueQueue → Option (List YaParamValueQueue)
  unfolding repopulate_queue
  refill_queues host i [] = some []
  refill_queues host i (q ∷ qs) = elim (original.parameter_data host i) [
    | none ↦ none
    | some queue ↦ elim (refill_queues host (suc i) qs) [
      | none ↦ none
      | some rest ↦ some (repopulate_queue original.queue_of queue q ∷ rest)
    ]
  ]

  all_queues : Option (List YaParamValueQueue) → Option YaParameterChanges
  all_queues none = none
  all_queues (some qs) = some (record { queues = qs })

  unfoldable pub repopulate : T → YaParameterChanges → Option YaParameterChanges
  unfolding resize_queues refill_queues all_queues
  repopulate host c =
      all_queues (refill_queues host 0 (resize_queues (original.parameter_count host) c.queues))

module _ {T : Type 0} (output : OutputChanges T) where
  -- `YaParamValueQueue::write_back_outputs`
  unfoldable pub write_back_points : ℕ → List Point → T → T
  write_back_points handle [] host = host
  write_back_points handle (p ∷ ps) host =
      write_back_points handle ps (output.new_point handle p host)

  -- The `if` in the loop.
  write_back_queue : List Point → Option ℕ × T → T
  unfolding write_back_points
  write_back_queue ps (none, host) = host
  write_back_queue ps (some handle, host) = write_back_points handle ps host

  unfoldable pub write_back_outputs : List YaParamValueQueue → T → T
  unfolding write_back_queue
  write_back_outputs [] host = host
  write_back_outputs (q ∷ qs) host =
      write_back_outputs qs (write_back_queue q.queue (output.new_queue q.parameter_id host))

unfoldable pub get_parameter_count : YaParameterChanges → ℕ
get_parameter_count c = length c.queues

-- The pointer that `getParameterData` returns: null, to a queue, or outside the vector.
pub data QueuePointer : Type 0 where
  null outside : QueuePointer
  to_queue : YaParamValueQueue → QueuePointer

found : Option YaParamValueQueue → QueuePointer
found none = null
found (some q) = to_queue q

unfoldable pub get_parameter_data : YaParameterChanges → ℤ → QueuePointer
unfolding found
get_parameter_data c (pos i) = found (get_elem? c.queues i)
get_parameter_data c (negsuc i) = outside

unfoldable pub add_parameter_data : ℕ → YaParameterChanges → Option ℕ × YaParameterChanges
unfolding clear_for_parameter
add_parameter_data id c =
    (some (length c.queues), record { queues = c.queues ++ clear_for_parameter id no_queue ∷ [] })

-- `addPoint` on the queue behind a pointer.
unfoldable pub add_point_at : ℕ → Point → List YaParamValueQueue → List YaParamValueQueue
unfolding add_point
add_point_at i p [] = []
add_point_at zero p (q ∷ qs) = (add_point p q).1 ∷ qs
add_point_at (suc i) p (q ∷ qs) = q ∷ add_point_at i p qs

abbrev pub own_changes : IparameterChanges YaParameterChanges YaParamValueQueue
own_changes = record {
  queue_of = own_queue;
  parameter_count = get_parameter_count;
  parameter_data = λ c i. elim (get_parameter_data c (pos i)) [ to_queue q ↦ some q | _ ↦ none ];
}

abbrev pub own_output : OutputChanges YaParameterChanges
own_output = record {
  new_queue = add_parameter_data;
  new_point = λ i p c. record { queues = add_point_at i p c.queues };
}
