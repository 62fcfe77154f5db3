-- ===== src/Serial/Consumption.antt =====
-- No action of the channel gives input back (src/host/ipc/serial-channel.cpp): one rule for each
-- way to build an action, and one lemma for each operation.
use wasivst.Prelude.{
  ℕ, zero, suc, ◌≤◌, Bool, true, false, List, [], ◌∷◌, arith, if◌then◌else◌, length, length-drop,
}
use wasivst.Serial.Action.{Io, Fault, Channel, Result, ok, err, pure, raise, continue, ◌>>=◌}
use wasivst.Serial.{
  read_into, read_bytes, write_bytes, read_u32, read_f64, read_process_frame_body,
  read_set_param_frame_body, read_get_param_frame_body, write_floats, write_channels,
  write_process_resp, write_get_param_resp, write_log,
}

-- The input that `m` leaves is no longer than the one it finds.
pub record Shrinks {ℓ} {A : Type ℓ} (m : Io A) : Type ℓ where
  pub at : (c : Channel) → length (m c).1.input ≤ length c.input

module _ {ℓ} {A : Type ℓ} where
  pub Shrinks-pure : (a : A) → Shrinks (pure a)
  Shrinks-pure a = record { at = λ c. omega arith }

  pub Shrinks-raise : (e : Fault) → Shrinks (raise {A = A} e)
  Shrinks-raise e = record { at = λ c. omega arith }

  pub Shrinks-if : (b : Bool) (m n : Io A) → Shrinks m → Shrinks n → Shrinks (if b then m else n)
  Shrinks-if true m n hm hn = hm
  Shrinks-if false m n hm hn = hn

module _ {ℓ κ} {A : Type ℓ} {B : Type κ} where
  continue-le :
      (f : A → Io B)
      → ((a : A) → Shrinks (f a))
      → (r : Result A) (c : Channel) → length (continue r f c).1.input ≤ length c.input
  continue-le f hf (ok a) c = (hf a).at c
  continue-le f hf (err e) c = omega arith

  pub Shrinks-bind :
      (m : Io A) (f : A → Io B) → Shrinks m → ((a : A) → Shrinks (f a)) → Shrinks (m >>= f)
  Shrinks-bind m f hm hf = record {
    at = λ c. omega (arith, continue-le f hf (m c).0 (m c).1, hm.at c);
  }

pub Shrinks-read_into : (room len : ℕ) → Shrinks (read_into room len)
unfolding read_into
Shrinks-read_into room len = record { at = λ c. ground (arith, length-drop len c.input) }

pub Shrinks-write_bytes : (bytes : List ℕ) → Shrinks (write_bytes bytes)
unfolding write_bytes
Shrinks-write_bytes bytes = record { at = λ c. omega arith }

pub ruleset shrink_rules =
    (Shrinks-pure, Shrinks-raise, Shrinks-if, Shrinks-bind, Shrinks-read_into, Shrinks-write_bytes)

pub Shrinks-read_bytes : (len : ℕ) → Shrinks (read_bytes len)
unfolding read_bytes
Shrinks-read_bytes len = Shrinks-read_into len len

pub Shrinks-read_u32 : Shrinks read_u32
unfolding read_u32
Shrinks-read_u32 = search (shrink_rules, Shrinks-read_bytes)

pub Shrinks-read_f64 : Shrinks read_f64
unfolding read_f64
Shrinks-read_f64 = search (shrink_rules, Shrinks-read_bytes)

pub Shrinks-read_process_frame_body : Shrinks read_process_frame_body
unfolding read_process_frame_body
Shrinks-read_process_frame_body = search (shrink_rules, Shrinks-read_u32) depth 9

pub Shrinks-read_set_param_frame_body : Shrinks read_set_param_frame_body
unfolding read_set_param_frame_body
Shrinks-read_set_param_frame_body = search (shrink_rules, Shrinks-read_u32, Shrinks-read_f64)

pub Shrinks-read_get_param_frame_body : Shrinks read_get_param_frame_body
unfolding read_get_param_frame_body
Shrinks-read_get_param_frame_body = Shrinks-read_u32

Shrinks-write_floats : (count : ℕ) (buffer : List ℕ) → Shrinks (write_floats count buffer)
unfolding write_floats
Shrinks-write_floats count buffer = search shrink_rules

Shrinks-write_channels :
    (k n : ℕ) (channels : List (List ℕ)) → Shrinks (write_channels k n channels)
unfolding write_channels
Shrinks-write_channels zero n channels = search shrink_rules
Shrinks-write_channels (suc k) n [] = search shrink_rules
Shrinks-write_channels (suc k) n (b ∷ bs) =
    Shrinks-bind (write_floats n b) _ (Shrinks-write_floats n b)
      (λ _. Shrinks-write_channels k n bs)

pub Shrinks-write_process_resp :
    (n ch : ℕ) (channels : List (List ℕ)) → Shrinks (write_process_resp n ch channels)
unfolding write_process_resp
Shrinks-write_process_resp n ch channels = search (shrink_rules, Shrinks-write_channels) depth 9

pub Shrinks-write_get_param_resp : (id value : ℕ) → Shrinks (write_get_param_resp id value)
unfolding write_get_param_resp
Shrinks-write_get_param_resp id value = search shrink_rules depth 9

pub Shrinks-write_log :
    (level : ℕ) (subsystem message : List ℕ) → Shrinks (write_log level subsystem message)
unfolding write_log
Shrinks-write_log level subsystem message = search shrink_rules depth 12
