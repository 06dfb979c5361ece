-- ===== src/Vbcmd/Logs.antt =====
-- Which programs a call runs: the log only grows, by programs with a property.
use go_virtualbox.Prelude.{
  Bool, true, false, List, [], ◌∷◌, ◌++◌, String, ◌≡◌, refl, sym, ap, ◌∙◌, Option, none, some, All,
  All-append, append-nil, append_assoc, if◌then◌else◌,
}
use go_virtualbox.Go.Outcome.{Outcome, ok, err, panic, Error}
use go_virtualbox.Vbcmd.{
  Exec, Command, proceed, Host, World, Invocation, prepare, check, manage, run_out, run_out_with,
}

module _ (P : Invocation → Type 0) where
  -- The log of the second world goes on with programs that have the property.
  pub record Adds {S : Type 0} (w v : World S) : Type 0 where
    pub added : List Invocation
    pub logged : v.log ≡ w.log ++ added
    pub all : All P added

  pub Adds-none : {S : Type 0} {w v : World S} → v.log ≡ w.log → Adds w v
  Adds-none {w = w} e = record { added = []; logged = e ∙ sym (append-nil w.log); all = tt }

  pub Adds-one :
      {S : Type 0} {w v : World S} (inv : Invocation) → P inv → v.log ≡ w.log ++ inv ∷ [] → Adds w v
  Adds-one inv p e = record { added = inv ∷ []; logged = e; all = (p, tt) }

  pub Adds-trans : {S : Type 0} {w v u : World S} → Adds w v → Adds v u → Adds w u
  Adds-trans {w = w} first second = record {
    added = first.added ++ second.added;
    logged =
        second.logged
        ∙ ap (λ l. l ++ second.added) first.logged
        ∙ append_assoc w.log first.added second.added;
    all = All-append P first.added second.added first.all second.all;
  }

  pub proceed-Adds :
      {S A B : Type 0} {w : World S} (r : Outcome A × World S) (f : A → Exec S B) (host : Host)
      → Adds w r.1
      → ((a : A) (v : World S) → Adds v (f a host v).1)
      → Adds w (proceed r f host).1
  proceed-Adds (ok a, v) f host first next = Adds-trans first (next a v)
  proceed-Adds (err e, v) f host first next = first
  proceed-Adds (panic p, v) f host first next = first

  check-Adds :
      {S A : Type 0} (o : Option Error) (a : A) (host : Host) (w : World S)
      → Adds w (check o a host w).1
  check-Adds none a host w = Adds-none refl
  check-Adds (some e) a host w = Adds-none refl

  -- The output of a command, with its error returned.
  pub checked_output-Adds :
      {S A : Type 0} (cmd : Command) (args : List String) (f : String → A) (host : Host)
      (w : World S)
      → P (prepare host.os cmd args)
      → Adds w (proceed (run_out_with cmd args host w) (λ (out, e). check e (f out)) host).1
  unfolding run_out_with
  checked_output-Adds cmd args f host w p =
      Adds-trans (Adds-one (prepare host.os cmd args) p refl) (check-Adds _ _ host _)

  pub run_out-Adds :
      {S : Type 0} (args : List String) (host : Host) (w : World S)
      → P (prepare host.os host.manage args)
      → Adds w (run_out args host w).1
  unfolding run_out manage
  run_out-Adds args host w p = checked_output-Adds host.manage args (λ out. out) host w p

  pub either-Adds :
      {S A : Type 0} (host : Host) (b : Bool) (m n : Exec S A) (w : World S)
      → Adds w (m host w).1
      → Adds w (n host w).1
      → Adds w ((if b then m else n) host w).1
  either-Adds host true m n w hm hn = hm
  either-Adds host false m n w hm hn = hn
