-- ===== src/Drivers.antt =====
-- kernel/src/drivers: the screen, the timer and the keyboard.
pub mod Screen
pub mod ScreenLaws
pub mod Typewriter
pub mod TypeLaws
pub mod BoundLaws
