-- ===== src/Machine/Quiet.antt =====
-- Which operations set the processor up: the events that load the descriptor tables and CR3, or
-- enable interrupts.
use Prim.Native.String.{String}
use faceless_os.Base.{◌≡◌, refl, ◌∙◌, Bool, true, false, List, [], ◌∷◌, if◌then◌else◌}
use faceless_os.Machine.Io.{
  Arg, Event, load_cr3, load_idtr, load_gdtr, sti, Trace, Io, pure, ◌>>=◌, log,
}

unfoldable pub is_setup : Event → Bool
is_setup (load_cr3 pml4) = true
is_setup (load_idtr limit base) = true
is_setup load_gdtr = true
is_setup sti = true
is_setup _ = false

-- The events of a trace that set the processor up.
unfoldable pub setups : Trace → List Event
unfolding is_setup
setups [] = []
setups (e ∷ t) = if is_setup e then e ∷ setups t else setups t

-- An operation that does not set the processor up.
pub record Quiet {A : Type 0} (m : Io A) : Type 0 where
  pub at : (t : Trace) → setups (m t).1 ≡ setups t

pub Quiet-pure : {A : Type 0} (a : A) → Quiet (pure a)
Quiet-pure a = record { at = λ t. refl }

pub Quiet-log : (fmt : String) (args : List Arg) → Quiet (log fmt args)
unfolding setups
Quiet-log fmt args = record { at = λ t. refl }

pub Quiet-bind :
    {A B : Type 0} (m : Io A) (f : A → Io B) → Quiet m → ((a : A) → Quiet (f a)) → Quiet (m >>= f)
Quiet-bind m f qm qf = record { at = λ t. (qf (m t).0).at (m t).1 ∙ qm.at t }

pub Quiet-if : {A : Type 0} (b : Bool) (m n : Io A) → Quiet m → Quiet n → Quiet (if b then m else n)
Quiet-if true m n qm qn = qm
Quiet-if false m n qm qn = qn
