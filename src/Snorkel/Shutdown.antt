-- ===== src/Snorkel/Shutdown.antt =====
-- crates/snorkel/src/shutdown.rs. The channel of `watch` is its value and what becomes of it.
use aqualung.Common.{
  ◌≡◌, ◌↔◌, ◌⊎◌, refl, Bool, true, false, List, [], ◌∷◌, Result, ok, if◌then◌else◌, inl, inr, arith,
}
use aqualung.Common.Results.{◌>>◌}
use aqualung.Pki.{Pki}

-- What `changed` brings next: a value that was sent, or an error, since all senders are dropped.
pub data Change : Type 0 where
  replaced : Bool → Change
  dropped : Change

-- The value of the channel that `watch::channel` makes.
unfoldable pub channel : Bool
channel = false

-- `Shutdown::manual`: the value at the start, and what a call of `stop` brings.
unfoldable pub manual : Bool × Change
unfolding channel
manual = (channel, replaced true)

-- `Shutdown::on_signals`: the registrations of the two signals, and the value at the start.
unfoldable pub on_signals :
    ⦃P : Pki⦄ → Result (Unit {0}) P.IoError → Result (Unit {0}) P.IoError → Result Bool P.IoError
unfolding channel
on_signals interrupt terminate = do interrupt; terminate; ok channel

pub data Signal : Type 0 where
  interrupt terminate : Signal

-- The task of `on_signals`: it waits for one signal, of either kind, sends, and drops its sender.
unfoldable pub signal_task : List Signal → List Change
signal_task [] = []
signal_task (signal ∷ more) = replaced true ∷ dropped ∷ []

-- `Shutdown::is_set`, of the value that the receiver sees.
unfoldable pub is_set : Bool → Bool
is_set value = value

-- `Shutdown::wait`, over what `changed` brings: whether it returns.
unfoldable pub wait : Bool → List Change → Bool
unfolding is_set
wait value [] = is_set value
wait value (dropped ∷ changes) = true
wait value (replaced next ∷ changes) = if is_set value then true else wait next changes

-- What a wait is for.
abbrev pub Stops : List Change → Type 0
Stops [] = ⊥
Stops (dropped ∷ changes) = Unit {0}
Stops (replaced next ∷ changes) = (next ≡ true) ⊎ Stops changes

-- `wait` returns exactly if the shutdown is set, or is set by one of the changes, or all senders are
-- dropped.
pub wait_iff :
    (value : Bool) (changes : List Change)
    → (wait value changes ≡ true) ↔ ((value ≡ true) ⊎ Stops changes)
unfolding wait
wait_iff true [] = (λ h. inl refl, λ h. refl)
wait_iff false [] = (λ h. inl h, λ h. elim h [ inl e ↦ e | inr e ↦ elim e [ ] ])
wait_iff value (dropped ∷ changes) = (λ h. inr tt, λ h. refl)
wait_iff true (replaced next ∷ changes) = (λ h. inl refl, λ h. refl)
wait_iff false (replaced next ∷ changes) = (
  λ h. inr ((wait_iff next changes).0 h),
  λ h. elim h [ inl e ↦ ground (arith, e) | inr s ↦ (wait_iff next changes).1 s ],
)

-- A signal ends every wait.
pub wait-signal_task :
    (signal : Signal) (more : List Signal) → wait false (signal_task (signal ∷ more)) ≡ true
unfolding wait signal_task
wait-signal_task signal more = refl
