-- ===== src/MpmcLockfree/Frame.antt =====
-- mpmc_lockfree.cpp: what a thread relies on, under the accesses of the others.
use modern_cpp_ds.Common.{ℕ, ◌+◌, ◌%◌, ◌≤◌, ◌<◌, ◌≡◌, ◌≢◌, Option, none, some, arith}
use modern_cpp_ds.Common.Bits.{bit_and-ones}
use modern_cpp_ds.MpmcLockfree.{
  buffer_size, slot, Pc, idle, enqueueing, compared, claimed, written, dequeueing, compared_out,
  claimed_out, read_out, Shared, write,
}

pub slot_lem : (p : ℕ) → slot p ≡ p % 2048
unfolding slot
slot_lem p = bit_and-ones 11 p

module _ {T : Type 0} where
  -- The position that a producer has claimed and not yet published.
  abbrev pub fills : Pc T → Option ℕ
  fills (claimed _ pos) = some pos
  fills (written pos) = some pos
  fills _ = none

  -- The position that a consumer has claimed and not yet given back.
  abbrev pub empties : Pc T → Option ℕ
  empties (claimed_out pos) = some pos
  empties (read_out pos _) = some pos
  empties _ = none

  -- A producer's cell waits for it, and a consumer's cell holds the datum of its position.
  pub record Filling (p : ℕ) (m : Shared T) : Type 0 where
    pub ahead : m.dequeue_pos ≤ p
    pub taken : p < m.enqueue_pos
    pub waiting : m.sequence (slot p) ≡ p

  pub record Emptying (p : ℕ) (m : Shared T) : Type 0 where
    pub taken : p < m.dequeue_pos
    pub near : m.enqueue_pos ≤ p + buffer_size
    pub full : m.sequence (slot p) ≡ p + 1

  abbrev pub Local : Pc T → Shared T → Type 0
  Local idle m = Unit {0}
  Local (enqueueing _ pos) m = pos ≤ m.enqueue_pos
  Local (compared _ pos seq) m =
      (pos ≤ m.enqueue_pos) × (seq ≡ pos → m.enqueue_pos ≡ pos → m.sequence (slot pos) ≡ pos)
  Local (claimed d pos) m = Filling pos m × (m.sent_at pos ≡ some d)
  Local (written pos) m = Filling pos m × (m.datum (slot pos) ≡ m.sent_at pos)
  Local (dequeueing pos) m = pos ≤ m.dequeue_pos
  Local (compared_out pos seq) m =
      (pos ≤ m.dequeue_pos)
      × (seq ≡ pos + 1 → m.dequeue_pos ≡ pos → m.sequence (slot pos) ≡ pos + 1)
  Local (claimed_out pos) m = Emptying pos m × (m.datum (slot pos) ≡ m.sent_at pos)
  Local (read_out pos d) m = Emptying pos m × (d ≡ m.sent_at pos)

  -- The five changes that an access makes, each at a position `p`.
  abbrev pub claim : ℕ → T → Shared T → Shared T
  claim p d m = record m { enqueue_pos = p + 1; sent_at = write m.sent_at p (some d) }

  abbrev pub fill : ℕ → T → Shared T → Shared T
  fill p d m = record m { datum = write m.datum (slot p) (some d) }

  abbrev pub publish : ℕ → Shared T → Shared T
  publish p m = record m { sequence = write m.sequence (slot p) (p + 1) }

  abbrev pub claim_out : ℕ → Shared T → Shared T
  claim_out p m = record m { dequeue_pos = p + 1 }

  abbrev pub give_back : ℕ → Shared T → Shared T
  give_back p m = record m { sequence = write m.sequence (slot p) (p + buffer_size) }

  pub claim-Local :
      (c : Pc T) (p : ℕ) (d : T) (m : Shared T)
      → m.enqueue_pos ≡ p
      → m.dequeue_pos ≤ p
      → m.sequence (slot p) ≡ p
      → Local c m
      → Local c (claim p d m)
  claim-Local idle p d m e o s l = tt
  claim-Local (enqueueing _ q) p d m e o s l = omega arith
  claim-Local (compared _ q x) p d m e o s l = ground arith
  claim-Local (claimed _ q) p d m e o s l = ground arith
  claim-Local (written q) p d m e o s l = ground arith
  claim-Local (dequeueing q) p d m e o s l = l
  claim-Local (compared_out q x) p d m e o s l = l
  claim-Local (claimed_out q) p d m e o s l = ground (arith, slot_lem p, slot_lem q)
  claim-Local (read_out q x) p d m e o s l = ground (arith, slot_lem p, slot_lem q)

  pub fill-Local :
      (c : Pc T) (p : ℕ) (d : T) (m : Shared T)
      → Filling p m
      → m.enqueue_pos ≤ m.dequeue_pos + buffer_size
      → fills c ≢ some p
      → Local c m
      → Local c (fill p d m)
  fill-Local idle p d m f r o l = tt
  fill-Local (enqueueing _ q) p d m f r o l = l
  fill-Local (compared _ q x) p d m f r o l = l
  fill-Local (claimed _ q) p d m f r o l = ground arith
  fill-Local (written q) p d m f r o l = ground (arith, slot_lem p, slot_lem q)
  fill-Local (dequeueing q) p d m f r o l = l
  fill-Local (compared_out q x) p d m f r o l = l
  fill-Local (claimed_out q) p d m f r o l = ground (arith, slot_lem p, slot_lem q)
  fill-Local (read_out q x) p d m f r o l = ground arith

  pub publish-Local :
      (c : Pc T) (p : ℕ) (m : Shared T)
      → Filling p m
      → m.enqueue_pos ≤ m.dequeue_pos + buffer_size
      → fills c ≢ some p
      → Local c m
      → Local c (publish p m)
  publish-Local idle p m f r o l = tt
  publish-Local (enqueueing _ q) p m f r o l = l
  publish-Local (compared _ q x) p m f r o l = ground (arith, slot_lem p, slot_lem q)
  publish-Local (claimed _ q) p m f r o l = ground (arith, slot_lem p, slot_lem q)
  publish-Local (written q) p m f r o l = ground (arith, slot_lem p, slot_lem q)
  publish-Local (dequeueing q) p m f r o l = l
  publish-Local (compared_out q x) p m f r o l = ground (arith, slot_lem p, slot_lem q)
  publish-Local (claimed_out q) p m f r o l = ground (arith, slot_lem p, slot_lem q)
  publish-Local (read_out q x) p m f r o l = ground (arith, slot_lem p, slot_lem q)

  pub claim_out-Local :
      (c : Pc T) (p : ℕ) (m : Shared T)
      → m.dequeue_pos ≡ p
      → m.sequence (slot p) ≡ p + 1
      → Local c m
      → Local c (claim_out p m)
  claim_out-Local idle p m e s l = tt
  claim_out-Local (enqueueing _ q) p m e s l = l
  claim_out-Local (compared _ q x) p m e s l = l
  claim_out-Local (claimed _ q) p m e s l = ground (arith, slot_lem p, slot_lem q)
  claim_out-Local (written q) p m e s l = ground (arith, slot_lem p, slot_lem q)
  claim_out-Local (dequeueing q) p m e s l = omega arith
  claim_out-Local (compared_out q x) p m e s l = ground arith
  claim_out-Local (claimed_out q) p m e s l = ground arith
  claim_out-Local (read_out q x) p m e s l = ground arith

  pub give_back-Local :
      (c : Pc T) (p : ℕ) (m : Shared T)
      → Emptying p m
      → m.dequeue_pos ≤ m.enqueue_pos
      → empties c ≢ some p
      → Local c m
      → Local c (give_back p m)
  give_back-Local idle p m f r o l = tt
  give_back-Local (enqueueing _ q) p m f r o l = l
  give_back-Local (compared _ q x) p m f r o l = ground (arith, slot_lem p, slot_lem q)
  give_back-Local (claimed _ q) p m f r o l = ground (arith, slot_lem p, slot_lem q)
  give_back-Local (written q) p m f r o l = ground (arith, slot_lem p, slot_lem q)
  give_back-Local (dequeueing q) p m f r o l = l
  give_back-Local (compared_out q x) p m f r o l = ground (arith, slot_lem p, slot_lem q)
  give_back-Local (claimed_out q) p m f r o l = ground (arith, slot_lem p, slot_lem q)
  give_back-Local (read_out q x) p m f r o l = ground (arith, slot_lem p, slot_lem q)
