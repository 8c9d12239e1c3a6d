-- ===== src/Cpu/Instr/Polls.antt =====
-- Loops over a status register, as source/kernel/tools/log.c and source/loader/loader_32.c have them: they
-- end when a read gives the value.
use Prim.Native.Nat.{bit_and}
use start.Base.{
  ℕ, suc, ◌<◌, ◌≡◌, refl, subst, arith, Bool-cases, inl, inr, if◌then◌else◌, ◌==◌, some, List, [],
  ◌∷◌,
}
use start.Cpu.Instr.{poll}

-- How many of the reads give the value.
abbrev pub ready_count : ℕ → ℕ → List ℕ → ℕ
ready_count mask value [] = 0
ready_count mask value (status ∷ reads) =
    if bit_and status mask == value
    then suc (ready_count mask value reads)
    else ready_count mask value reads

pub poll-some :
    (mask value : ℕ) (reads : List ℕ)
    → 0 < ready_count mask value reads
    → (rest : List ℕ) × (poll mask value reads ≡ some rest)
      × (suc (ready_count mask value rest) ≡ ready_count mask value reads)
unfolding poll
poll-some mask value [] h = absurd (omega arith)
poll-some mask value (status ∷ reads) h = elim (Bool-cases (bit_and status mask == value)) [
  | inl e ↦ rw e (reads, refl, refl)
  | inr e ↦
      let n = ready_count mask value reads in
      rw e (poll-some mask value reads (subst (λ b. 0 < (if b then suc n else n)) e h))
]
