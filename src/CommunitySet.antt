-- ===== src/CommunitySet.antt =====
-- nest/a-set.c and the set part of nest/attrs.h: sets of communities as arrays of 32-bit words, one
-- word to a community (int), two to an extended (ec) and three to a large community (lc).
pub mod Spec
pub mod Words
pub mod Int
pub mod Ec
pub mod Lc
mod Tests
