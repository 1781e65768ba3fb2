-- ===== src/Store/Leases.antt =====
-- The task leases of redis_store.py exclude one another.
use e_commerce_agent.Base.{◌≡◌, ◌≢◌, String, true, false, arith, eq_refl, eq_iff}
use e_commerce_agent.Platform.{Platform}
use e_commerce_agent.Store.{Redis, acquire_task_lease, release_task_lease, has_task_lease}

module _ (p : Platform) (task_id owner : String) (r held : Redis p) where
  release_task_lease_frees :
      acquire_task_lease p task_id owner r ≡ (true, held)
      → has_task_lease p task_id (release_task_lease p task_id owner held) ≡ false
  unfolding acquire_task_lease release_task_lease has_task_lease
  release_task_lease_frees h = ground (
    arith,
    p.get-put task_id task_id owner r.leases,
    p.get-del task_id task_id held.leases,
    eq_refl task_id,
    eq_refl owner,
  )

  -- While an owner holds the lease of a task, another can neither release it nor acquire it: both
  -- calls leave the store as it is, and the second says no. After the holder's own release the task
  -- has no lease.
  pub acquire_task_lease_excludes :
      (other : String)
      → owner ≢ other
      → acquire_task_lease p task_id owner r ≡ (true, held)
      → (release_task_lease p task_id other held ≡ held)
        × (acquire_task_lease p task_id other held ≡ (false, held))
        × (has_task_lease p task_id held ≡ true)
        × (has_task_lease p task_id (release_task_lease p task_id owner held) ≡ false)
  unfolding acquire_task_lease release_task_lease has_task_lease
  acquire_task_lease_excludes other different h =
      let stored = p.get-put task_id task_id owner r.leases in
      (
        ground (arith, stored, eq_refl task_id, eq_iff owner other),
        ground (arith, stored, eq_refl task_id),
        ground (arith, stored, eq_refl task_id),
        release_task_lease_frees h,
      )
