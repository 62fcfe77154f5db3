-- ===== src/Clap/Process/Outputs.antt =====
-- What the host has of a block after the plugin's response, as src/common/serialization/clap/process.cpp
-- writes it back.
use wasivst.Prelude.{
  arith, ℕ, zero, suc, ◌*◌, ◌≡◌, refl, ap, ◌∙◌, Option, none, some, List, [], ◌∷◌, ◌++◌, length,
  take, drop, map,
}
use wasivst.Clap.Events.{ClapEvent, clear, output_events, EventList, OutputEvents}
use wasivst.Clap.Events.Laws.{push_all, carried, write_back_outputs-push_all}
use wasivst.Vst3.ProcessData.{SharedAudio}
use wasivst.Vst3.ProcessData.Outputs.{AreReady, channel_regions, of_channels, copy_out_channels_lem}
use wasivst.Clap.Process.{
  AudioBufferType, float32, double64, HostBuffer, HostProcess, AudioBuffer, Port, Process,
  receive_response, with_buffers, write_port_channels, write_port, write_back_ports,
  write_back_outputs,
}

-- The host's channels of a type.
abbrev data_of : AudioBufferType → HostBuffer → Option (List (List ℕ))
data_of float32 host = host.data32
data_of double64 host = host.data64

-- The bytes of a `float` and of a `double`.
unfoldable pub width : AudioBufferType → ℕ
width double64 = 8
width float32 = 4

abbrev port_bytes : ℕ → Port → ℕ
port_bytes frames p = frames * width p.buffer_type

-- Ports of the types of some ports, with the buffers that the plugin left.
unfoldable pub answered : List Port → List AudioBuffer → List Port
answered (p ∷ ps) (b ∷ bs) = record { buffer = b; buffer_type = p.buffer_type } ∷ answered ps bs
answered _ _ = []

-- A port without channels, or channels that are ready to be written.
abbrev pub IsWritable : (n size count : ℕ) → List ℕ → Option (List (List ℕ)) → Type 0
IsWritable n size zero offsets channels = Unit
IsWritable n size (suc k) offsets none = ⊥
IsWritable n size (suc k) offsets (some channels) = AreReady n size (suc k) offsets channels

-- There are as many ports as the host has, and all are so, with samples of the size of their type.
abbrev pub AreWritable : (frames size : ℕ) → List Port → List (List ℕ) → List HostBuffer → Type 0
AreWritable frames size [] offsets [] = Unit
AreWritable frames size (p ∷ ports) (os ∷ offsets) (host ∷ hosts) =
    IsWritable (port_bytes frames p) size p.buffer.channel_count os (data_of p.buffer_type host)
    × AreWritable frames size ports offsets hosts
AreWritable frames size _ _ _ = ⊥

-- The memory at the places of all channels, in their order.
unfoldable pub port_regions : (frames : ℕ) → List Port → List (List ℕ) → List ℕ → List (List ℕ)
unfolding width channel_regions
port_regions frames (p ∷ ports) (os ∷ offsets) m =
    channel_regions (port_bytes frames p) p.buffer.channel_count os m
    ++ port_regions frames ports offsets m
port_regions frames _ _ m = []

abbrev channel_list : Option (List (List ℕ)) → List (List ℕ)
channel_list none = []
channel_list (some channels) = channels

-- What a function of the number of bytes gives of the buffers of all channels, in their order.
unfoldable pub of_ports :
    (ℕ → List ℕ → List ℕ) → (frames : ℕ) → List Port → List HostBuffer → List (List ℕ)
unfolding width of_channels
of_ports f frames (p ∷ ports) (host ∷ hosts) =
    of_channels (f (port_bytes frames p)) p.buffer.channel_count
      (channel_list (data_of p.buffer_type host))
    ++ of_ports f frames ports hosts
of_ports f frames _ _ = []

-- Written: the fronts of the buffers are the memory at their places, and the rest of them is as it was.
abbrev PortChannels : (n count : ℕ) → List ℕ → List ℕ → Option (List (List ℕ)) → Type 0
PortChannels n count os m channels =
    (channels' : Option (List (List ℕ))) × (write_port_channels n count os m channels
      ≡ some channels')
    × (of_channels (λ b. take n b) count (channel_list channels') ≡ channel_regions n count os m)
    × (of_channels (λ b. drop n b) count (channel_list channels')
        ≡ of_channels (λ b. drop n b) count (channel_list channels))

write_port_channels_lem :
    (n count : ℕ) (os m : List ℕ) (channels : Option (List (List ℕ)))
    → IsWritable n (length m) count os channels
    → PortChannels n count os m channels
unfolding write_port_channels of_channels channel_regions
write_port_channels_lem n zero os m channels h = (channels, refl, refl, refl)
write_port_channels_lem n (suc k) os m none h = absurd h
write_port_channels_lem n (suc k) os m (some channels) h =
    let (channels', e, heads, tails) = copy_out_channels_lem n (suc k) os m channels h in
    (some channels', rw (e) refl, heads, tails)

abbrev WrittenPort : (frames : ℕ) → Port → List ℕ → List ℕ → HostBuffer → Type 0
WrittenPort frames p os m host =
    (host' : HostBuffer) × (write_port frames p.buffer p.buffer_type os m host ≡ some host')
    × (of_channels (λ b. take (port_bytes frames p) b) p.buffer.channel_count
          (channel_list (data_of p.buffer_type host'))
        ≡ channel_regions (port_bytes frames p) p.buffer.channel_count os m)
    × (of_channels (λ b. drop (port_bytes frames p) b) p.buffer.channel_count
          (channel_list (data_of p.buffer_type host'))
        ≡ of_channels (λ b. drop (port_bytes frames p) b) p.buffer.channel_count
            (channel_list (data_of p.buffer_type host)))
    × (host'.host_constant_mask ≡ p.buffer.constant_mask)
    × (host'.host_latency ≡ p.buffer.latency)

write_port_lem :
    (frames : ℕ) (b : AudioBuffer) (kind : AudioBufferType) (os m : List ℕ) (host : HostBuffer)
    → IsWritable (frames * width kind) (length m) b.channel_count os (data_of kind host)
    → WrittenPort frames (record { buffer = b; buffer_type = kind }) os m host
unfolding write_port width
write_port_lem frames b float32 os m host h =
    let (channels, e, heads, tails) =
      write_port_channels_lem (frames * 4) b.channel_count os m host.data32 h in
    (
      record host {
        host_constant_mask = b.constant_mask;
        host_latency = b.latency;
        data32 = channels;
      },
      rw (e) refl,
      heads,
      tails,
      refl,
      refl,
    )
write_port_lem frames b double64 os m host h =
    let (channels, e, heads, tails) =
      write_port_channels_lem (frames * 8) b.channel_count os m host.data64 h in
    (
      record host {
        host_constant_mask = b.constant_mask;
        host_latency = b.latency;
        data64 = channels;
      },
      rw (e) refl,
      heads,
      tails,
      refl,
      refl,
    )

-- What the host's outputs are afterwards.
abbrev pub Written :
    (frames : ℕ) → List Port → List (List ℕ) → List ℕ → (hosts hosts' : List HostBuffer) → Type 0
Written frames ports offsets m hosts hosts' =
    (of_ports (λ n b. take n b) frames ports hosts' ≡ port_regions frames ports offsets m)
    × (of_ports (λ n b. drop n b) frames ports hosts'
        ≡ of_ports (λ n b. drop n b) frames ports hosts)
    × (map (λ (h : HostBuffer). h.host_constant_mask) hosts'
        ≡ map (λ (p : Port). p.buffer.constant_mask) ports)
    × (map (λ (h : HostBuffer). h.host_latency) hosts' ≡ map (λ (p : Port). p.buffer.latency) ports)

write_back_ports_lem :
    (frames : ℕ) (ports : List Port) (offsets : List (List ℕ)) (m : List ℕ)
    (hosts : List HostBuffer)
    → AreWritable frames (length m) ports offsets hosts
    → (hosts' : List HostBuffer) × (write_back_ports frames ports offsets m hosts ≡ some hosts')
      × Written frames ports offsets m hosts hosts'
unfolding write_back_ports of_ports port_regions
write_back_ports_lem frames [] offsets m [] h = ([], refl, (refl, refl, refl, refl))
write_back_ports_lem frames [] offsets m (host ∷ hosts) h = absurd h
write_back_ports_lem frames (p ∷ ports) [] m hosts h = absurd h
write_back_ports_lem frames (p ∷ ports) (os ∷ offsets) m [] h = absurd h
write_back_ports_lem frames (p ∷ ports) (os ∷ offsets) m (host ∷ hosts) (h, hs) =
    let n = port_bytes frames p in
    let k = p.buffer.channel_count in
    let (host', e, head, tail, mask, latency) =
      write_port_lem frames p.buffer p.buffer_type os m host h in
    let (hosts', e', (heads, tails, masks, latencies)) =
      write_back_ports_lem frames ports offsets m hosts hs in
    (
      host' ∷ hosts',
      rw (e, e') refl,
      (
        ap (λ xs. xs ++ of_ports (λ n b. take n b) frames ports hosts') head
            ∙ ap (λ ys. channel_regions n k os m ++ ys) heads,
        ap (λ xs. xs ++ of_ports (λ n b. drop n b) frames ports hosts') tail
            ∙ ap
                (λ ys.
                  of_channels (λ b. drop n b) k (channel_list (data_of p.buffer_type host)) ++ ys)
                tails,
        ap (λ x. x ∷ map (λ (h : HostBuffer). h.host_constant_mask) hosts') mask
            ∙ ap (λ xs. p.buffer.constant_mask ∷ xs) masks,
        ap (λ x. x ∷ map (λ (h : HostBuffer). h.host_latency) hosts') latency
            ∙ ap (λ xs. p.buffer.latency ∷ xs) latencies,
      ),
    )

with_buffers-answered :
    (ports : List Port) (outputs : List AudioBuffer)
    → length outputs ≡ length ports
    → with_buffers ports outputs ≡ some (answered ports outputs)
unfolding with_buffers answered
with_buffers-answered [] [] e = refl
with_buffers-answered [] (b ∷ bs) e = absurd (omega (arith, e))
with_buffers-answered (p ∷ ps) [] e = absurd (omega (arith, e))
with_buffers-answered (p ∷ ps) (b ∷ bs) e = rw (with_buffers-answered ps bs (omega (arith, e))) refl

-- A field of the buffers of answered ports is that of the plugin's.
map-answered :
    (f : AudioBuffer → ℕ) (ports : List Port) (outputs : List AudioBuffer)
    → length outputs ≡ length ports
    → map (λ (p : Port). f p.buffer) (answered ports outputs) ≡ map f outputs
unfolding answered
map-answered f [] [] e = refl
map-answered f [] (b ∷ bs) e = absurd (omega (arith, e))
map-answered f (p ∷ ps) [] e = absurd (omega (arith, e))
map-answered f (p ∷ ps) (b ∷ bs) e = ap (λ xs. f b ∷ xs) (map-answered f ps bs (omega (arith, e)))

-- A block that was taken over into a process, the buffers that the plugin left for its outputs, one for
-- each, and the events that it pushed into its cleared list. For each of the host's outputs there is a
-- port, whose channels, as many as the plugin's buffer says, have places within the memory and buffers of
-- the host for samples of the port's type. Then the response is received and written back: the front of
-- each channel's buffer is the memory at its place and the rest of it is as it was, the outputs have the
-- masks and the latencies that the plugin left, and its events are offered to the host in order, but for
-- those that are not carried.
pub write_back_outputs-receive_response :
    {C E F : Type 0}
    → (events : OutputEvents F) (host : HostProcess C E F) (own : Process C) (shm : SharedAudio)
      (f : F) (outputs : List AudioBuffer) (pushed : List ClapEvent) (old : EventList)
    → host.host_out_events ≡ some f
    → length outputs ≡ length own.audio_outputs
    → AreWritable host.host_frames_count
        (length shm.memory)
        (answered own.audio_outputs outputs)
        shm.output_offsets
        host.host_audio_outputs
    → (own' : Process C) × (hosts' : List HostBuffer) × (receive_response
          (record {
            response_outputs = outputs;
            response_events = push_all output_events pushed (clear old);
          })
          own
        ≡ some own')
      × (write_back_outputs events own' host shm
          ≡ some (record host {
            host_audio_outputs = hosts';
            host_out_events = some (push_all events (carried pushed) f);
          }))
      × Written host.host_frames_count
          (answered own.audio_outputs outputs)
          shm.output_offsets
          shm.memory
          host.host_audio_outputs
          hosts'
      × (map (λ (h : HostBuffer). h.host_constant_mask) hosts'
          ≡ map (λ (b : AudioBuffer). b.constant_mask) outputs)
      × (map (λ (h : HostBuffer). h.host_latency) hosts'
          ≡ map (λ (b : AudioBuffer). b.latency) outputs)
unfolding write_back_outputs receive_response
write_back_outputs-receive_response events host own shm f outputs pushed old hf one_each h =
    let ports = answered own.audio_outputs outputs in
    let (hosts', e, written) =
      write_back_ports_lem host.host_frames_count ports shm.output_offsets shm.memory
        host.host_audio_outputs h in
    let (_, _, masks, latencies) = written in
    (
      record own { audio_outputs = ports; out_events = push_all output_events pushed (clear old) },
      hosts',
      rw (with_buffers-answered own.audio_outputs outputs one_each) refl,
      rw (hf, e, write_back_outputs-push_all events f pushed old) refl,
      written,
      masks ∙ map-answered (λ b. b.constant_mask) own.audio_outputs outputs one_each,
      latencies ∙ map-answered (λ b. b.latency) own.audio_outputs outputs one_each,
    )
