-- ===== src/Store/Valid/Queue.antt =====
-- Every operation on the queue keeps it valid.
use floxy_pro.Prelude.{Bool, arith, nat_eq, suc, ℕ}
use floxy_pro.Model.{QueueItem}
use floxy_pro.Prelude.Maps.{Map, adjust, delete, delete_where, insert}
use floxy_pro.Prelude.Maps.Distinct.{
  adjust-IsDistinct, delete-IsDistinct, delete_where-IsDistinct, insert-IsDistinct,
}
use floxy_pro.Prelude.Maps.Everywhere.{
  adjust-Everywhere, delete-Everywhere, delete_where-Everywhere, insert-Everywhere,
  weaken-Everywhere,
}
use floxy_pro.Store.Valid.{QueueEntry, QueueIsValid}

module _ (q : Map ℕ QueueItem) (n : ℕ) (h : QueueIsValid q n) where
  pub adjust-QueueIsValid :
      (k : ℕ) (f : QueueItem → QueueItem)
      → ((item : QueueItem) → QueueEntry n k item → QueueEntry n k (f item))
      → QueueIsValid (adjust k f q) n
  adjust-QueueIsValid k f keep = record {
    distinct = adjust-IsDistinct k f q h.distinct;
    entries = adjust-Everywhere (QueueEntry n) q k f keep h.entries;
  }

  pub delete-QueueIsValid : (k : ℕ) → QueueIsValid (delete k q) n
  delete-QueueIsValid k = record {
    distinct = delete-IsDistinct k q h.distinct;
    entries = delete-Everywhere (QueueEntry n) q k h.entries;
  }

  pub delete_where-QueueIsValid : (p : QueueItem → Bool) → QueueIsValid (delete_where p q) n
  delete_where-QueueIsValid p = record {
    distinct = delete_where-IsDistinct p q h.distinct;
    entries = delete_where-Everywhere (QueueEntry n) q p h.distinct h.entries;
  }

  pub insert-QueueIsValid :
      (item : QueueItem) → QueueEntry (suc n) n item → QueueIsValid (insert n item q) (suc n)
  insert-QueueIsValid item fits = record {
    distinct = insert-IsDistinct n item q h.distinct;
    entries = insert-Everywhere (QueueEntry (suc n)) q n item fits (
        weaken-Everywhere (QueueEntry n) q (QueueEntry (suc n))
          (λ k i old. (old.0, omega (arith, old.1), old.2)) h.entries);
  }
