-- ===== src/Shop.antt =====
-- The UIN shop (app/routers/uin_shop.py): the till's holds, the collection, redeeming, and resale; and
-- how an account comes (`register` of app/routers/auth.py) and moves (app/routers/migrate.py).
pub mod Tables
pub mod Hold
pub mod Exclusive
pub mod Session
pub mod Collection
pub mod Redeem
pub mod Market
pub mod Account
pub mod Door
pub mod Requests
pub mod Register
mod Moved
mod Sound
mod View
mod Moving
mod Bought
mod Sold
mod Resold
mod Kept
mod Drawn
mod Chosen
mod Entered
mod Gates
pub mod Uses
pub mod Asked
pub mod Refined
pub mod Once
mod Tests
mod SaleTests
mod DoorTests
mod OverlapTests
pub mod Overlap
mod Later
pub mod Overtaken
pub mod Simultaneous
mod Undivided
mod SpentOnce
pub mod Overlapping
