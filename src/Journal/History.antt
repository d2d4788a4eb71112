-- ===== src/Journal/History.antt =====
-- How a directory of src/dyro/continuation/action_journal.py grows: its files, and the generation of
-- the owner lease.
use dyro_engineering_flow.Prelude.{ℕ, ◌≤◌, ◌≡◌, Option, none, some, arith}
use dyro_engineering_flow.Prelude.Dict.{Dict, lookup, create, lookup-create_kept}
use dyro_engineering_flow.Journal.Model.{ActionIntent, ActionStart, ActionReceipt, OwnerLease}
use dyro_engineering_flow.Journal.Keeps.{created_at, Keeps}
use dyro_engineering_flow.Journal.Store.{
  intent_file, start_file, receipt_file, TakeoverPending, Directory, create_intent, create_start,
  create_receipt, write_lease, pending_written, write_pending, remove_pending,
}

abbrev pub Kept : {V : Type 0} → Dict V → Dict V → Type 0
Kept {V} d e = (k : ℕ) (v : V) → lookup k d ≡ some v → lookup k e ≡ some v

abbrev pub generation : Option OwnerLease → ℕ
generation none = 0
generation (some l) = l.generation

-- Every file of `d` stands in `e` with the same content, and the owner generation did not fall.
pub record Extends (d e : Directory) : Type 0 where
  pub intents : Kept d.intents e.intents
  pub starts : Kept d.starts e.starts
  pub receipts : Kept d.receipts e.receipts
  pub fenced : generation d.lease ≤ generation e.lease

pub Extends-refl : (d : Directory) → Extends d d
Extends-refl d = record {
  intents = λ k v h. h;
  starts = λ k v h. h;
  receipts = λ k v h. h;
  fenced = omega arith;
}

pub Extends-trans : {d e f : Directory} → Extends d e → Extends e f → Extends d f
Extends-trans x y = record {
  intents = λ k v h. y.intents k v (x.intents k v h);
  starts = λ k v h. y.starts k v (x.starts k v h);
  receipts = λ k v h. y.receipts k v (x.receipts k v h);
  fenced = omega (arith, x.fenced, y.fenced);
}

added_intent :
    (base d : Directory) (k : ℕ) (v : ActionIntent)
    → lookup k d.intents ≡ none
    → Extends base d
    → Extends base (record d { intents = create k v d.intents })
added_intent base d k v absent x = record {
  intents = λ j w h. lookup-create_kept j k v d.intents absent (x.intents j w h);
  starts = x.starts;
  receipts = x.receipts;
  fenced = x.fenced;
}

added_start :
    (base d : Directory) (k : ℕ) (v : ActionStart)
    → lookup k d.starts ≡ none
    → Extends base d
    → Extends base (record d { starts = create k v d.starts })
added_start base d k v absent x = record {
  intents = x.intents;
  starts = λ j w h. lookup-create_kept j k v d.starts absent (x.starts j w h);
  receipts = x.receipts;
  fenced = x.fenced;
}

added_receipt :
    (base d : Directory) (k : ℕ) (v : ActionReceipt)
    → lookup k d.receipts ≡ none
    → Extends base d
    → Extends base (record d { receipts = create k v d.receipts })
added_receipt base d k v absent x = record {
  intents = x.intents;
  starts = x.starts;
  receipts = λ j w h. lookup-create_kept j k v d.receipts absent (x.receipts j w h);
  fenced = x.fenced;
}

module _ (base : Directory) where
  pub create_intent-Grows : (k : ℕ) (v : ActionIntent) → Keeps (Extends base) (create_intent k v)
  unfolding create_intent
  create_intent-Grows k v = record {
    at = λ d x.
        created_at (Extends base) (intent_file k) (lookup k d.intents) _ d x
          (λ absent. added_intent base d k v absent x);
  }

  pub create_start-Grows : (k : ℕ) (v : ActionStart) → Keeps (Extends base) (create_start k v)
  unfolding create_start
  create_start-Grows k v = record {
    at = λ d x.
        created_at (Extends base) (start_file k) (lookup k d.starts) _ d x
          (λ absent. added_start base d k v absent x);
  }

  pub create_receipt-Grows : (k : ℕ) (v : ActionReceipt) → Keeps (Extends base) (create_receipt k v)
  unfolding create_receipt
  create_receipt-Grows k v = record {
    at = λ d x.
        created_at (Extends base) (receipt_file k) (lookup k d.receipts) _ d x
          (λ absent. added_receipt base d k v absent x);
  }

  pending_written-Extends :
      (old : Option TakeoverPending) (p : TakeoverPending) (d : Directory)
      → Extends base d
      → Extends base (pending_written old p d).1
  pending_written-Extends none p d x = record {
    intents = x.intents;
    starts = x.starts;
    receipts = x.receipts;
    fenced = x.fenced;
  }
  pending_written-Extends (some _) p d x = x

  pub write_pending-Grows : (p : TakeoverPending) → Keeps (Extends base) (write_pending p)
  unfolding write_pending
  write_pending-Grows p = record { at = λ d x. pending_written-Extends d.pending p d x }

  pub remove_pending-Grows : Keeps (Extends base) remove_pending
  unfolding remove_pending
  remove_pending-Grows = record {
    at = λ d x. record {
      intents = x.intents;
      starts = x.starts;
      receipts = x.receipts;
      fenced = x.fenced;
    };
  }

pub write_lease-Extends :
    (l : OwnerLease) (d : Directory)
    → generation d.lease ≤ l.generation
    → Extends d (write_lease l d).1
unfolding write_lease
write_lease-Extends l d h = record {
  intents = λ j w e. e;
  starts = λ j w e. e;
  receipts = λ j w e. e;
  fenced = h;
}
