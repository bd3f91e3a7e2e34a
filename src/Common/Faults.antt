-- ===== src/Common/Faults.antt =====
-- How a call to another process can go wrong: it is lost before it has an effect, or it has its effect
-- and the answer is lost.

pub data Fault : Type 0 where
  fine lost late : Fault
