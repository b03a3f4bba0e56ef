-- ===== src/Bookings.antt =====
-- Venue bookings: the places of a time slot, booking one and cancelling. src/modules/bookings.
pub mod Model
pub mod Occupancy
pub mod Service
pub mod Booked
pub mod Released
pub mod Outcome
pub mod Capacity
